-- ===== src/Pagination.antt =====
-- src/shared/pagination: cursors, and the envelope of a page.
pub mod Cursors
pub mod Examples
use nestjs_modular_monolith.Common.{
  ℕ, ◌≤◌, ◌≡◌, Bool, true, false, Option, none, some, List, [], ◌∷◌, ◌++◌, ltb, ◌==◌, if◌then◌else◌,
  length, take, All,
}
use nestjs_modular_monolith.Errors.{Result, ok, throw, Thrown, cursor_malformed}
use nestjs_modular_monolith.Errors.DomainErrors
use nestjs_modular_monolith.Text.{Text, text_eq}

-- The last moment that a Date has.
abbrev pub max_date : ℕ
max_date = 8640000000000000

-- What the source calls: `Buffer` to and from base64url, over UTF-8; `toISOString` and `new Date`, which
-- is none where the time is not a number; and the check of a UUID of version 7, with the number that
-- it stands for.
pub record Encoding : Type 0 where
  pub to_base64url : Text → Text
  pub from_base64url : Text → Text
  pub to_iso_string : ℕ → Text
  pub parse_date : Text → Option ℕ
  pub uuid_text : ℕ → Text
  pub parse_uuid_v7 : Text → Option ℕ
  pub is_v7 : ℕ → Bool
  pub from_to :
      (t i : ℕ)
      → from_base64url (to_base64url (to_iso_string t ++ 58 ∷ uuid_text i))
        ≡ to_iso_string t ++ 58 ∷ uuid_text i
  pub parse_iso : (t : ℕ) → t ≤ max_date → parse_date (to_iso_string t) ≡ some t
  pub iso_length : (t : ℕ) → t ≤ max_date → 1 ≤ length (to_iso_string t)
  pub parse_uuid : (i : ℕ) → is_v7 i ≡ true → parse_uuid_v7 (uuid_text i) ≡ some i
  pub uuid_plain : (i : ℕ) → All (λ c. c == 58 ≡ false) (uuid_text i)

pub record DecodedCursor : Type 0 where
  pub sort_value : ℕ
  pub id : ℕ

abbrev pub malformed_cursor : Thrown
malformed_cursor = DomainErrors.malformed cursor_malformed

-- What stands before and after the last colon.
abbrev pub before_colon : ℕ → Text → Option (Text × Text) → Option (Text × Text)
before_colon c s (some (left, right)) = some (c ∷ left, right)
before_colon c s none = if c == 58 then some ([], s) else none

unfoldable pub split_last : Text → Option (Text × Text)
split_last [] = none
split_last (c ∷ s) = before_colon c s (split_last s)

module _ (encoding : Encoding) where
  open encoding use {
    to_base64url, from_base64url, to_iso_string, parse_date, uuid_text, parse_uuid_v7,
  }

  unfoldable pub encode_cursor : ℕ → ℕ → Text
  encode_cursor sort_value id = to_base64url (to_iso_string sort_value ++ 58 ∷ uuid_text id)

  abbrev pub with_id : ℕ → Option ℕ → Result DecodedCursor
  with_id sort_value none = throw malformed_cursor
  with_id sort_value (some id) = ok (record { sort_value = sort_value; id = id })

  abbrev pub with_date : Text → Text → Option ℕ → Result DecodedCursor
  with_date timestamp id none = throw malformed_cursor
  with_date timestamp id (some t) =
      if text_eq (to_iso_string t) timestamp
      then with_id t (parse_uuid_v7 id)
      else throw malformed_cursor

  abbrev pub with_parts : Option (Text × Text) → Result DecodedCursor
  with_parts none = throw malformed_cursor
  with_parts (some (timestamp, id)) =
      if length timestamp == 0
      then throw malformed_cursor
      else with_date timestamp id (parse_date timestamp)

  unfoldable pub decode_cursor : Text → Result DecodedCursor
  decode_cursor raw = with_parts (split_last (from_base64url raw))

  abbrev pub some_cursor : Result DecodedCursor → Result (Option DecodedCursor)
  some_cursor (ok c) = ok (some c)
  some_cursor (throw e) = throw e

  unfoldable pub decode_optional_cursor : Option Text → Result (Option DecodedCursor)
  decode_optional_cursor none = ok none
  decode_optional_cursor (some []) = ok none
  decode_optional_cursor (some (c ∷ raw)) = some_cursor (decode_cursor (c ∷ raw))

-- Less the member `object`, which is always the word list.
pub record ListResponse (Row : Type 0) : Type 0 where
  pub url : Text
  pub rows : List Row
  pub has_more : Bool
  pub last_cursor : Option Text
  pub total_count : Option ℕ

-- `data.at(-1)`, with its cursor.
abbrev pub cursor_of_last : {Row : Type 0} → (Row → Text) → List Row → Option Text
cursor_of_last cursor_of [] = none
cursor_of_last cursor_of (row ∷ []) = some (cursor_of row)
cursor_of_last cursor_of (_ ∷ rows) = cursor_of_last cursor_of rows

unfoldable pub build_list_response :
    {Row : Type 0} → Text → List Row → ℕ → (Row → Text) → Option ℕ → ListResponse Row
build_list_response url rows limit cursor_of total_count =
    let has_more = ltb limit (length rows) in
    let page = if has_more then take limit rows else rows in
    record {
      url = url;
      rows = page;
      has_more = has_more;
      last_cursor = cursor_of_last cursor_of page;
      total_count = total_count;
    }
