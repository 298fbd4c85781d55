-- ===== src/Billing/Json.antt =====
-- The payloads of webhooks, and the functions `toJsonObject` and `toJsonMember` of
-- src/modules/billing/infrastructure/prisma-billing-webhook.repository.ts.
use nestjs_modular_monolith.Common.{ℕ, ◌≡◌, refl, Bool, true, false, ◌&&◌, if◌then◌else◌}
use nestjs_modular_monolith.Errors.{Result, ok, throw, plain_error}
use nestjs_modular_monolith.Text.{Text, text_eq}

-- A value of type `unknown`; a number as the bits of its double, and `other` for functions, symbols and
-- big integers, which JSON cannot say either.
mutual
  pub data Value : Type 0 where
    null undefined other : Value
    string : Text → Value
    number : ℕ → Value
    boolean : Bool → Value
    array : Items → Value
    object : Fields → Value

  pub data Items : Type 0 where
    no_items : Items
    item : Value → Items → Items

  pub data Fields : Type 0 where
    no_fields : Fields
    field : Text → Value → Fields → Fields

-- A member of an object; an absent one is undefined.
abbrev pub member : Text → Fields → Value
member name no_fields = undefined
member name (field k x fs) = if text_eq k name then x else member name fs

abbrev on_ok : {A B : Type 0} → (A → B) → Result A → Result B
on_ok f (ok a) = ok (f a)
on_ok f (throw e) = throw e

abbrev on_both : {A B C : Type 0} → (A → B → C) → Result A → Result B → Result C
on_both f (throw e) b = throw e
on_both f (ok a) (throw e) = throw e
on_both f (ok a) (ok b) = ok (f a b)

unfoldable mutual
  pub to_json_member : Value → Result Value
  to_json_member null = ok null
  to_json_member (string s) = ok (string s)
  to_json_member (number n) = ok (number n)
  to_json_member (boolean b) = ok (boolean b)
  to_json_member (array xs) = on_ok array (to_json_items xs)
  to_json_member (object fs) = on_ok object (to_json_object fs)
  to_json_member undefined = throw plain_error
  to_json_member other = throw plain_error

  pub to_json_items : Items → Result Items
  to_json_items no_items = ok no_items
  to_json_items (item x xs) = on_both item (to_json_member x) (to_json_items xs)

  pub to_json_object : Fields → Result Fields
  to_json_object no_fields = ok no_fields
  to_json_object (field k x fs) = on_both (field k) (to_json_member x) (to_json_object fs)

-- Whether JSON can say all of it.
unfoldable mutual
  pub is_json : Value → Bool
  is_json null = true
  is_json undefined = false
  is_json other = false
  is_json (string s) = true
  is_json (number n) = true
  is_json (boolean b) = true
  is_json (array xs) = are_json xs
  is_json (object fs) = is_json_object fs

  are_json : Items → Bool
  are_json no_items = true
  are_json (item x xs) = is_json x && are_json xs

  pub is_json_object : Fields → Bool
  is_json_object no_fields = true
  is_json_object (field k x fs) = is_json x && is_json_object fs

join :
    {A B C : Type 0} (f : A → B → C) (a : A) (b : B) (p q : Bool)
    → on_both f (if p then ok a else throw plain_error) (if q then ok b else throw plain_error)
      ≡ (if p && q then ok (f a b) else throw plain_error)
join f a b true true = refl
join f a b true false = refl
join f a b false q = refl

wrap :
    {A B : Type 0} (f : A → B) (a : A) (p : Bool)
    → on_ok f (if p then ok a else throw plain_error) ≡ (if p then ok (f a) else throw plain_error)
wrap f a true = refl
wrap f a false = refl

mutual
  unfolding to_json_member to_json_items to_json_object is_json are_json is_json_object

  to_json_member_lem :
      (x : Value) → to_json_member x ≡ (if is_json x then ok x else throw plain_error)
  to_json_member_lem null = refl
  to_json_member_lem undefined = refl
  to_json_member_lem other = refl
  to_json_member_lem (string s) = refl
  to_json_member_lem (number n) = refl
  to_json_member_lem (boolean b) = refl
  to_json_member_lem (array xs) = rw (to_json_items_lem xs) (wrap array xs (are_json xs))
  to_json_member_lem (object fs) = rw (to_json_object_lem fs) (wrap object fs (is_json_object fs))

  to_json_items_lem :
      (xs : Items) → to_json_items xs ≡ (if are_json xs then ok xs else throw plain_error)
  to_json_items_lem no_items = refl
  to_json_items_lem (item x xs) =
      rw (to_json_member_lem x, to_json_items_lem xs) (join item x xs (is_json x) (are_json xs))

  -- What a webhook is stored as is what was received, and a payload that JSON cannot say throws.
  pub to_json_object_lem :
      (fs : Fields) → to_json_object fs ≡ (if is_json_object fs then ok fs else throw plain_error)
  to_json_object_lem no_fields = refl
  to_json_object_lem (field k x fs) =
      rw (to_json_member_lem x, to_json_object_lem fs)
        (join (field k) x fs (is_json x) (is_json_object fs))
