-- ===== src/Pagination/Examples.antt =====
-- The theorem on cursors at a concrete encoding.
use nestjs_modular_monolith.Common.{
  ℕ, ◌+◌, ◌-◌, ◌≡◌, refl, ap, true, Option, none, some, [], ◌∷◌, arith,
}
use nestjs_modular_monolith.Errors.{ok}
use nestjs_modular_monolith.Text.{Text}
use nestjs_modular_monolith.Pagination.{Encoding, encode_cursor, decode_cursor}
use nestjs_modular_monolith.Pagination.Cursors.{decode_cursor-encode_cursor}

abbrev second : Text → Option ℕ
second (c ∷ d ∷ []) = some d
second _ = none

abbrev shifted : Text → Option ℕ
shifted (c ∷ []) = some (c - 59)
shifted _ = none

-- A time as a colon and a unit, and an identifier as a unit that is no colon.
abbrev units : Encoding
units = record {
  to_base64url = λ s. s;
  from_base64url = λ s. s;
  to_iso_string = λ t. 58 ∷ t ∷ [];
  parse_date = second;
  uuid_text = λ i. (i + 59) ∷ [];
  parse_uuid_v7 = shifted;
  is_v7 = λ i. true;
  from_to = λ t i. refl;
  parse_iso = λ t h. refl;
  iso_length = λ t h. omega arith;
  parse_uuid = λ i h. ap some (omega arith);
  uuid_plain = λ i. (ground arith, tt);
}

decode_cursor-encode_cursor_example :
    decode_cursor units (encode_cursor units 1000 7) ≡ ok (record { sort_value = 1000; id = 7 })
decode_cursor-encode_cursor_example = decode_cursor-encode_cursor units 1000 7 (omega arith) refl
