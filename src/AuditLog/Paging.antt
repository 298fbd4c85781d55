-- ===== src/AuditLog/Paging.antt =====
-- Reading the whole audit log page by page: `ListAuditEntriesUseCase`, called again with the last cursor
-- while there is more.
use mathlib.Core.List.Permᴰ
use nestjs_modular_monolith.Common.{
  ℕ, zero, suc, ◌+◌, ◌<◌, ◌≤◌, ◌≡◌, refl, sym, subst, ap, ◌∙◌, inl, inr, Bool, true, false, ◌&&◌,
  ◌||◌, &&-eq-true, Bool-cases, Option, none, some, List, [], ◌∷◌, ◌++◌, Memᴰ, arith, ltb, keep,
  take, map, length, length-keep, length-append, count-le-length, length-take, All, All-map,
  All-mem, All-both, All_every, keep-ext,
}
use nestjs_modular_monolith.Prisma.{PrismaClient, IsSorted}
use nestjs_modular_monolith.Prisma.Rows.{
  IsUnique, IsUnique-keep, IsUnique-perm, All-self, All-keep, any-false, mem-keep, length-perm,
}
use nestjs_modular_monolith.Prisma.Orders.{mem-perm, IsSorted-after, mem_right, eq_of_mem}
use nestjs_modular_monolith.AuditLog.{
  AuditEntry, Cursor, AuditEntryFilter, AuditEntryPage, same_entry, matches, is_after, newest_first,
  list_page, list_audit_entries, page_limit, last_cursor_of, to_view,
}

abbrev cursor_of : AuditEntry → Cursor
cursor_of entry = record { sort_value = entry.occurred_at; id = entry.id }

-- The second entry comes after the first.
abbrev precedes : AuditEntry → AuditEntry → Bool
precedes a b = is_after (some (cursor_of a)) b

precedes_irrefl : (a : AuditEntry) → precedes a a ≡ false
precedes_irrefl a = ground arith

precedes_trans :
    (a b c : AuditEntry) → precedes a b ≡ true → precedes b c ≡ true → precedes a c ≡ true
precedes_trans a b c h k = ground arith

is_after_trans :
    (c : Option Cursor) (a b : AuditEntry)
    → is_after c a ≡ true
    → precedes a b ≡ true
    → is_after c b ≡ true
is_after_trans none a b h k = refl
is_after_trans (some c) a b h k = ground arith

newest_first_total : (a b : AuditEntry) → newest_first a b || newest_first b a ≡ true
newest_first_total a b = ground arith

newest_first_trans :
    (a b c : AuditEntry)
    → newest_first a b ≡ true
    → newest_first b c ≡ true
    → newest_first a c ≡ true
newest_first_trans a b c h k = ground arith

first_precedes :
    (a b : AuditEntry) → newest_first a b ≡ true → same_entry a b ≡ false → precedes a b ≡ true
first_precedes a b h k = ground arith

-- Where every identifier is there once, the order is strict.
precedes-IsSorted :
    (t : List AuditEntry) → IsSorted newest_first t → IsUnique same_entry t → IsSorted precedes t
precedes-IsSorted [] h u = tt
precedes-IsSorted (a ∷ t) h u = (
  All-map
      (λ b (p : (newest_first a b ≡ true) × (same_entry a b ≡ false)). first_precedes a b p.0 p.1) t
      (All-both _ _ t h.0 (any-false (same_entry a) t u.0)),
  precedes-IsSorted t h.1 u.1,
)

never : (a b : AuditEntry) → precedes a b ≡ true → precedes b a ≡ true → ⊥
never a b h k = ground arith

both : {a b : Bool} → a ≡ true → b ≡ true → (a && b) ≡ true
both h k = rw (h, k) refl

and_true : (b : Bool) → (b && true) ≡ b
and_true true = refl
and_true false = refl

-- Of the entries around one, those that come after it stand behind it.
behind_mem :
    (a : List AuditEntry) (e : AuditEntry) (b : List AuditEntry) (z : AuditEntry)
    → All (λ x. precedes x e ≡ true) a
    → precedes e z ≡ true
    → Memᴰ z (a ++ e ∷ b)
    → Memᴰ z b
behind_mem [] e b z earlier h (Memᴰ.head same) =
    elim (never e e (subst (λ x. precedes e x ≡ true) same h)
      (subst (λ x. precedes e x ≡ true) same h)) [ ]
behind_mem [] e b z earlier h (Memᴰ.tail m) = m
behind_mem (x ∷ a) e b z earlier h (Memᴰ.head same) =
    elim (never z e (subst (λ y. precedes y e ≡ true) (sym same) earlier.0) h) [ ]
behind_mem (x ∷ a) e b z earlier h (Memᴰ.tail m) = behind_mem a e b z earlier.1 h m

-- Where a page that is not the last is cut.
abbrev Cut : ℕ → List AuditEntry → Type 0
Cut n rows =
    (a : List AuditEntry) × (e : AuditEntry) × (b : List AuditEntry) × (rows ≡ a ++ e ∷ b)
    × (take n rows ≡ a ++ e ∷ [])

cut : (n : ℕ) (rows : List AuditEntry) → 0 < n → n < length rows → Cut n rows
cut zero rows h k = elim h [ ]
cut (suc n) [] h k = elim k [ ]
cut (suc zero) (r ∷ rows) h k = ([], r, rows, refl, refl)
cut (suc (suc n)) (r ∷ rows) h k =
    let (a, e, b, whole, page) = cut (suc n) rows (omega arith) (omega arith) in
    (r ∷ a, e, b, ap (λ t. r ∷ t) whole, ap (λ t. r ∷ t) page)

last_cursor_of-append :
    (a : List AuditEntry) (e : AuditEntry) → last_cursor_of (a ++ e ∷ []) ≡ some (cursor_of e)
last_cursor_of-append [] e = refl
last_cursor_of-append (x ∷ []) e = refl
last_cursor_of-append (x ∷ y ∷ a) e = last_cursor_of-append (y ∷ a) e

take_whole : (n : ℕ) (rows : List AuditEntry) → length rows ≤ n → take n rows ≡ rows
take_whole zero [] h = refl
take_whole zero (r ∷ rows) h = elim h [ ]
take_whole (suc n) [] h = refl
take_whole (suc n) (r ∷ rows) h = ap (λ t. r ∷ t) (take_whole n rows (omega arith))

take-take : (n : ℕ) (rows : List AuditEntry) → take n (take (suc n) rows) ≡ take n rows
take-take zero rows = refl
take-take (suc n) [] = refl
take-take (suc n) (r ∷ rows) = ap (λ t. r ∷ t) (take-take n rows)

map-append :
    (f : AuditEntry → AuditEntry) (a b : List AuditEntry) → map f (a ++ b) ≡ map f a ++ map f b
map-append f [] b = refl
map-append f (x ∷ a) b = ap (λ t. f x ∷ t) (map-append f a b)

append_assoc : (a b c : List AuditEntry) → (a ++ b) ++ c ≡ a ++ (b ++ c)
append_assoc [] b c = refl
append_assoc (x ∷ a) b c = ap (λ t. x ∷ t) (append_assoc a b c)

-- The entries of a page, followed by those of the later pages.
abbrev prepend : List AuditEntry → Option (List AuditEntry) → Option (List AuditEntry)
prepend entries none = none
prepend entries (some later) = some (entries ++ later)

abbrev then_later :
    AuditEntryPage → (Option Cursor → Option (List AuditEntry)) → Option (List AuditEntry)
then_later page later = elim page.has_more [
  | true ↦ prepend page.entries (later page.last_cursor)
  | false ↦ some page.entries
]

module _ (prisma : PrismaClient) (input_limit : Option ℕ) (f : AuditEntryFilter)
    (entries : List AuditEntry) where
  open prisma use {order_by, order_by-perm, order_by-IsSorted}

  -- The entries of all pages from a cursor on, as a client reads them that follows each last cursor
  -- while there is more; none where that takes more than so many pages.
  unfoldable pub read_pages : ℕ → Option Cursor → Option (List AuditEntry)
  read_pages zero cursor = none
  read_pages (suc pages) cursor =
      then_later (list_audit_entries prisma cursor input_limit f entries) (read_pages pages)

  abbrev is_wanted : Option Cursor → AuditEntry → Bool
  is_wanted cursor r = matches f r && is_after cursor r

  -- What a cursor leaves to read.
  abbrev remaining : Option Cursor → List AuditEntry
  remaining cursor = order_by newest_first (keep (is_wanted cursor) entries)

  remaining-IsSorted :
      (cursor : Option Cursor) → IsUnique same_entry entries → IsSorted precedes (remaining cursor)
  remaining-IsSorted cursor u =
      precedes-IsSorted (remaining cursor)
        (order_by-IsSorted newest_first newest_first_total newest_first_trans _)
        (IsUnique-perm same_entry (λ a b. ground arith) (order_by-perm newest_first _)
          (IsUnique-keep same_entry (is_wanted cursor) entries u))

  remaining_mem :
      (cursor : Option Cursor) (r : AuditEntry)
      → Memᴰ r (remaining cursor)
      → Memᴰ r entries × (is_wanted cursor r ≡ true)
  remaining_mem cursor r m =
      All-mem (λ x. Memᴰ x entries × (is_wanted cursor x ≡ true)) (keep (is_wanted cursor) entries)
        (All-keep (λ x. Memᴰ x entries) (is_wanted cursor) entries (All-self entries))
        (mem-perm r (order_by-perm newest_first _) m)

  mem_remaining :
      (cursor : Option Cursor) (r : AuditEntry)
      → Memᴰ r entries
      → is_wanted cursor r ≡ true
      → Memᴰ r (remaining cursor)
  mem_remaining cursor r m h =
      mem-perm r (Permᴰ.symm (order_by-perm newest_first _))
        (mem-keep (is_wanted cursor) entries m h)

  -- What the cursor of a read entry leaves is what stands behind it.
  remaining-rest :
      (cursor : Option Cursor) (a : List AuditEntry) (e : AuditEntry) (b : List AuditEntry)
      → IsUnique same_entry entries
      → remaining cursor ≡ a ++ e ∷ b
      → remaining (some (cursor_of e)) ≡ b
  remaining-rest cursor a e b u whole =
      let sorted = subst (IsSorted precedes) whole (remaining-IsSorted cursor u) in
      let (rest, later, earlier) = IsSorted-after precedes a e b sorted in
      let here = subst (λ t. Memᴰ e t) (sym whole) (mem_right a (e ∷ b) (Memᴰ.head refl)) in
      let wanted = &&-eq-true (matches f e) (is_after cursor e) (remaining_mem cursor e here).1 in
      eq_of_mem precedes precedes_irrefl precedes_trans _ b
        (remaining-IsSorted (some (cursor_of e)) u) rest
        (λ z m.
          let (there, hit) = remaining_mem (some (cursor_of e)) z m in
          let (fits, behind) = &&-eq-true (matches f z) (precedes e z) hit in
          behind_mem a e b z earlier behind (
            subst (λ t. Memᴰ z t) whole
              (mem_remaining cursor z there
                (both fits (is_after_trans cursor e z wanted.1 behind)))))
        (λ z m.
          let (there, hit) =
            remaining_mem cursor z
              (subst (λ t. Memᴰ z t) (sym whole) (mem_right a (e ∷ b) (Memᴰ.tail m))) in
          mem_remaining (some (cursor_of e)) z there (
            both (&&-eq-true (matches f z) (is_after cursor z) hit).0
              (All-mem (λ x. precedes e x ≡ true) b later m)))

  abbrev limit : ℕ
  limit = page_limit input_limit

  -- The page that is the last.
  last_page :
      (cursor : Option Cursor)
      → length (remaining cursor) ≤ limit
      → list_audit_entries prisma cursor input_limit f entries ≡ record {
        entries = map to_view (remaining cursor);
        has_more = false;
        last_cursor = last_cursor_of (remaining cursor);
      }
  unfolding list_audit_entries list_page
  last_page cursor short =
      let few : ltb limit (length (remaining cursor)) ≡ false = ground (arith, short) in
      rw (take_whole (limit + 1) (remaining cursor) (omega (arith, short)), few) refl

  -- A page behind which there is more.
  full_page :
      (cursor : Option Cursor)
      → limit < length (remaining cursor)
      → list_audit_entries prisma cursor input_limit f entries ≡ record {
        entries = map to_view (take limit (remaining cursor));
        has_more = true;
        last_cursor = last_cursor_of (take limit (remaining cursor));
      }
  unfolding list_audit_entries list_page
  full_page cursor long =
      let next : limit + 1 ≡ suc limit = omega arith in
      let many : ltb limit (length (take (suc limit) (remaining cursor))) ≡ true =
        ground (arith, long, length-take (suc limit) (remaining cursor)) in
      rw (next, many, take-take limit (remaining cursor)) refl

  -- One page, and what the later pages come to.
  more_pages :
      (pages : ℕ) (cursor : Option Cursor)
      → limit < length (remaining cursor)
      → Cut limit (remaining cursor)
      → IsUnique same_entry entries
      → ((e : AuditEntry)
          → length (remaining (some (cursor_of e))) < length (remaining cursor)
          → read_pages pages (some (cursor_of e))
            ≡ some (map to_view (remaining (some (cursor_of e)))))
      → read_pages (suc pages) cursor ≡ some (map to_view (remaining cursor))
  unfolding read_pages
  more_pages pages cursor long (a, e, b, whole, page) u later =
      let next = remaining-rest cursor a e b u whole in
      let shorter : length (remaining (some (cursor_of e))) < length (remaining cursor) =
        omega (arith, ap length next, ap length whole, length-append a (e ∷ b)) in
      let read = later e shorter ∙ ap (λ t. some (map to_view t)) next in
      rw (full_page cursor long, page, last_cursor_of-append a e, read, whole)
        (ap some
          (sym (map-append to_view (a ++ e ∷ []) b) ∙ ap (map to_view) (append_assoc a (e ∷ []) b)))

  read_pages-remaining :
      (pages : ℕ) (cursor : Option Cursor)
      → 0 < limit
      → IsUnique same_entry entries
      → length (remaining cursor) < pages
      → read_pages pages cursor ≡ some (map to_view (remaining cursor))
  unfolding read_pages
  read_pages-remaining zero cursor positive u enough = elim enough [ ]
  read_pages-remaining (suc pages) cursor positive u enough =
      elim (Bool-cases (ltb limit (length (remaining cursor)))) [
        | inr short ↦ rw (last_page cursor (ground (arith, short))) refl
        | inl long ↦
            more_pages pages cursor (ground (arith, long))
              (cut limit (remaining cursor) positive (ground (arith, long))) u
              (λ e rest.
                read_pages-remaining pages (some (cursor_of e)) positive u
                  (omega (arith, rest, enough)))
      ]

  -- Whoever reads the log page by page from its start, with a limit of at least one, reads every entry
  -- that matches the filter once, newest first, in at most one page more than there are entries, where
  -- no identifier is there twice and nothing is written meanwhile.
  pub read_pages-all :
      0 < page_limit input_limit
      → IsUnique same_entry entries
      → read_pages (suc (length entries)) none
        ≡ some (map to_view (order_by newest_first (keep (matches f) entries)))
  read_pages-all positive u =
      let all : keep (is_wanted none) entries ≡ keep (matches f) entries =
        keep-ext (is_wanted none) (matches f) entries
          (All_every _ (λ r. and_true (matches f r)) entries) in
      let few : length (remaining none) < suc (length entries) = omega (
        arith,
        length-perm (order_by-perm newest_first (keep (is_wanted none) entries)),
        length-keep (is_wanted none) entries,
        count-le-length (is_wanted none) entries,
      ) in
      read_pages-remaining (suc (length entries)) none positive u few
      ∙ ap (λ t. some (map to_view (order_by newest_first t))) all
