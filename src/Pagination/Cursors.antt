-- ===== src/Pagination/Cursors.antt =====
-- That a cursor can be read back.
use nestjs_modular_monolith.Common.{
  ℕ, ◌≤◌, ◌≡◌, refl, true, false, none, some, [], ◌∷◌, ◌++◌, arith, ◌==◌, length, All,
}
use nestjs_modular_monolith.Errors.{ok}
use nestjs_modular_monolith.Text.{Text, text_eq_refl}
use nestjs_modular_monolith.Pagination.{
  Encoding, max_date, split_last, encode_cursor, decode_cursor,
}

split_last-none : (s : Text) → All (λ c. c == 58 ≡ false) s → split_last s ≡ none
unfolding split_last
split_last-none [] h = refl
split_last-none (c ∷ s) h = rw (split_last-none s h.1, h.0) refl

split_last-append :
    (s t : Text) → All (λ c. c == 58 ≡ false) t → split_last (s ++ 58 ∷ t) ≡ some (s, t)
unfolding split_last
split_last-append [] t h = rw (split_last-none t h) refl
split_last-append (c ∷ s) t h = rw (split_last-append s t h) refl

module _ (encoding : Encoding) where
  open encoding use {
    to_iso_string, uuid_text, is_v7, from_to, parse_iso, iso_length, parse_uuid, uuid_plain,
  }

  -- A cursor is read back as it was written, for every time that a Date has and every identifier of
  -- version 7, although the time has colons in it too.
  pub decode_cursor-encode_cursor :
      (sort_value id : ℕ)
      → sort_value ≤ max_date
      → is_v7 id ≡ true
      → decode_cursor encoding (encode_cursor encoding sort_value id)
        ≡ ok (record { sort_value = sort_value; id = id })
  unfolding decode_cursor encode_cursor
  decode_cursor-encode_cursor t i early v7 =
      let some_text : length (to_iso_string t) == 0 ≡ false = ground (arith, iso_length t early) in
      rw
        (
          from_to t i,
          split_last-append (to_iso_string t) (uuid_text i) (uuid_plain i),
          some_text,
          parse_iso t early,
          text_eq_refl (to_iso_string t),
          parse_uuid i v7,
        )
        refl
