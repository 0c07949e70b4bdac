-- ===== src/Address.antt =====
-- `convertIPToString` of source/tools.cpp, and `getIP` of source/connection.cpp. `sprintf` does not fail for this format, so the early
-- return is not reached.
use juggernaut_server.Base.{
  ◌%◌, ◌^◌, Option, none, some, ℕ, ◌+◌, ◌/◌, ◌-◌, ◌*◌, List, [], ◌∷◌, ◌++◌, bit_and, shr, decimal,
  ◌==◌, if◌then◌else◌,
}
pub mod Text
pub mod Peer
mod Examples

abbrev pub dot : List ℕ
dot = b'.' ∷ []

-- `%u.%u.%u.%u`: a number below 2 ^ 32 has ten digits at most.
unfoldable pub convert_ip_to_string : ℕ → List ℕ
convert_ip_to_string ip =
    decimal 10 (bit_and ip 0xFF)
    ++ (dot
        ++ (decimal 10 (bit_and (shr ip 8) 0xFF)
            ++ (dot ++ (decimal 10 (bit_and (shr ip 16) 0xFF) ++ (dot ++ decimal 10 (shr ip 24))))))

-- On a little-endian target.
unfoldable pub htonl : ℕ → ℕ
htonl n =
    n % 2 ^ 8 * 2 ^ 24
    + n / 2 ^ 8 % 2 ^ 8 * 2 ^ 16
    + n / 2 ^ 16 % 2 ^ 8 * 2 ^ 8
    + n / 2 ^ 24 % 2 ^ 8

-- `Connection::getIP`, with the address of the socket's other end, if it is known.
unfoldable pub get_ip : Option ℕ → ℕ
unfolding htonl
get_ip none = 0
get_ip (some address) = htonl address
