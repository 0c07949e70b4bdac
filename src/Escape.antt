-- ===== src/Escape.antt =====
-- `Database::escapeString` and `escapeBlob` of source/database.cpp. What `mysql_real_escape_string`
-- writes to the buffer, without the zero behind it, is a parameter.
use juggernaut_server.Base.{
  ℕ, ◌+◌, ◌*◌, List, [], ◌∷◌, ◌++◌, Option, none, some, length, take, u32, ltb, ◌==◌, if◌then◌else◌,
}
use juggernaut_server.Database.{Text, until_zero}
pub mod Room
mod Examples

-- `size_t maxLength = (length * 2) + 1`: the length is a uint32_t, and so is the product.
unfoldable pub max_length : ℕ → ℕ
max_length len = u32 (len * 2 + 1)

abbrev pub quote : Text
quote = b'\'' ∷ []

unfoldable pub quoted : Option Text → Option Text
quoted none = none
quoted (some escaped) = some (quote ++ (escaped ++ quote))

module _ (real_escape : Text → Text) where
  -- The buffer of `maxLength` characters. `none` is a write behind its end.
  unfoldable pub escape_into : ℕ → Text → Option Text
  unfolding until_zero
  escape_into room s =
      if ltb room (length (real_escape s) + 1) then none else some (until_zero (real_escape s))

  -- `escapeBlob` of the first `len` bytes of `s`.
  unfoldable pub escape_blob : Text → ℕ → Option Text
  unfolding escape_into max_length quoted
  escape_blob s len =
      if len == 0 then some (quote ++ quote) else quoted (escape_into (max_length len) (take len s))

  -- The length is narrowed to a uint32_t.
  unfoldable pub escape_string : Text → Option Text
  unfolding escape_blob
  escape_string s = escape_blob s (u32 (length s))
