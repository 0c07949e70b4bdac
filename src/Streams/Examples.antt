-- ===== src/Streams/Examples.antt =====
-- The round trip of the property streams at concrete properties.
use juggernaut_server.Base.{◌≡◌, List, [], ◌∷◌, some, arith}
use juggernaut_server.Streams.{from_writer}
use juggernaut_server.Streams.RoundTrip.{
  Property, number, text, raw, store_all, load_all, load_all-store_all,
}

abbrev properties : List Property
properties =
    number 4 0xdeadbeef ∷ text (b'o' ∷ b'k' ∷ []) ∷ raw (1 ∷ 2 ∷ []) ∷ text [] ∷ number 1 7 ∷ []

load_all-store_all_example :
    load_all properties (from_writer (store_all properties [])) ≡ (some properties, [])
load_all-store_all_example = load_all-store_all properties (omega arith, (omega arith, tt))
