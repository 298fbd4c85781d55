-- ===== src/Upload/Sweep/Purge.antt =====
-- The purge of a user's files ends, and removes what it is meant to.
use mathlib.Core.List.{Permᴰ}
use Prim.Native.String.{String}
use nestjs_modular_monolith.Common.{
  ℕ, zero, suc, ◌+◌, ◌<◌, ◌≡◌, ◌≢◌, refl, sym, ap, ◌∙◌, subst, Bool, false, not, Option, none, some,
  List, [], ◌∷◌, Memᴰ, arith, ◌==◌, ==_iff, length, take, count, any, keep, All, All-map, All-mem,
  All-both, min, length-map, length-take, length-keep,
}
use nestjs_modular_monolith.Errors.{Result, ok}
use nestjs_modular_monolith.Prisma.{PrismaClient}
use nestjs_modular_monolith.Prisma.Rows.{
  IsUnique, IsUnique-keep, IsUnique-take, IsUnique-perm, IsUnique-image, All-image, length-perm,
  All-perm, All-take, All-keep, All-self, mem-keep, any-false,
}
use nestjs_modular_monolith.Upload.StoredFile.{StoredFile}
use nestjs_modular_monolith.Upload.Repository.{
  to_aggregate, delete_by_id_lem, find_all_by_owner, oldest_first,
}
use nestjs_modular_monolith.Upload.Storage.{FileStorage}
use nestjs_modular_monolith.Upload.Sweep.{
  World, is_head, remove_file, purge_batch, purge_round, purge_on, purge_loop, purge,
  purge_batch_size,
}

-- The primary key.
abbrev pub same_id : StoredFile → StoredFile → Bool
same_id a b = a.id == b.id

same_id_comm : (a b : StoredFile) → same_id a b ≡ same_id b a
same_id_comm a b = ground arith

abbrev pub is_owned : ℕ → StoredFile → Bool
is_owned owner_id r = r.owner_id == owner_id

abbrev pub is_other : ℕ → StoredFile → Bool
is_other owner_id r = not (r.owner_id == owner_id)

abbrev pub without : ℕ → List StoredFile → List StoredFile
without id = keep (λ r. not (r.id == id))

without_absent :
    (id : ℕ) (files : List StoredFile)
    → any (λ (r : StoredFile). id == r.id) files ≡ false
    → without id files ≡ files
without_absent id [] h = refl
without_absent id (r ∷ files) h = ground (arith, without_absent id files)

any-without :
    (id : ℕ) (files : List StoredFile)
    → any (λ (r : StoredFile). id == r.id) (without id files) ≡ false
any-without id [] = refl
any-without id (r ∷ files) = ground (arith, any-without id files)

any-without_other :
    (id j : ℕ) (files : List StoredFile)
    → any (λ (r : StoredFile). id == r.id) files ≡ false
    → any (λ (r : StoredFile). id == r.id) (without j files) ≡ false
any-without_other id j [] h = refl
any-without_other id j (r ∷ files) h = ground (arith, any-without_other id j files)

-- A row of the table that belongs to the owner stands behind the loaded file.
abbrev IsListed : ℕ → List StoredFile → StoredFile → Type 0
IsListed owner_id files f =
    (r : StoredFile) × Memᴰ r files × (r.id ≡ f.id) × (r.owner_id ≡ owner_id)

-- The deletion of one row of the owner.
count-without :
    (owner_id id : ℕ) (files : List StoredFile) {r : StoredFile}
    → IsUnique same_id files
    → Memᴰ r files
    → r.id ≡ id
    → r.owner_id ≡ owner_id
    → (count (is_owned owner_id) files ≡ suc (count (is_owned owner_id) (without id files)))
      × (keep (is_other owner_id) (without id files) ≡ keep (is_other owner_id) files)
count-without owner_id id [] u m e f = elim m [ ]
count-without owner_id id (x ∷ files) {r} u (Memᴰ.head q) e f = ground (
  arith,
  ap (λ (y : StoredFile). y.id) q,
  ap (λ (y : StoredFile). y.owner_id) q,
  subst (λ j. any (λ (y : StoredFile). j == y.id) files ≡ false)
      (sym (ap (λ (y : StoredFile). y.id) q) ∙ e) u.0,
  without_absent id files,
)
count-without owner_id id (x ∷ files) {r} u (Memᴰ.tail m) e f = ground (
  arith,
  All-mem (λ y. same_id x y ≡ false) files (any-false (same_id x) files u.0) m,
  count-without owner_id id files u.1 m e f,
)

without-IsListed :
    (owner_id id : ℕ) (files : List StoredFile) (g : StoredFile)
    → id ≢ g.id
    → IsListed owner_id files g
    → IsListed owner_id (without id files) g
without-IsListed owner_id id files g h (r, m, e, f) =
    (r, mem-keep (λ (y : StoredFile). not (y.id == id)) files m (ground arith), e, f)

module _ (prisma : PrismaClient) (storage : FileStorage)
    (reliable : (k : String) (o : storage.Objects) → (storage.remove k o).0 ≡ ok tt) where
  remove_file_lem :
      (file : StoredFile) (w : World storage.Objects)
      → remove_file prisma storage file w ≡ (
        ok tt,
        record {
          files = without file.id w.files;
          objects = (storage.remove file.storage_key w.objects).1;
        },
      )
  unfolding remove_file
  remove_file_lem file w =
      rw (reliable file.storage_key w.objects, delete_by_id_lem prisma file.id w.files)

  -- What a batch of the owner's files leaves behind.
  record Emptied (owner_id purged : ℕ) (owned : List StoredFile) (w : World storage.Objects)
      : Type 0 where
    after : World storage.Objects
    runs : purge_batch prisma storage owned purged w ≡ (ok (purged + length owned), after)
    unique : IsUnique same_id after.files
    fewer : count (is_owned owner_id) w.files ≡ length owned + count (is_owned owner_id) after.files
    others : keep (is_other owner_id) after.files ≡ keep (is_other owner_id) w.files
    gone : All (λ f. any (λ (r : StoredFile). f.id == r.id) after.files ≡ false) owned
    stays_gone :
        (id : ℕ)
        → any (λ (r : StoredFile). id == r.id) w.files ≡ false
        → any (λ (r : StoredFile). id == r.id) after.files ≡ false

  purge_batch-Emptied :
      (owner_id purged : ℕ) (owned : List StoredFile) (w : World storage.Objects)
      → IsUnique same_id w.files
      → IsUnique same_id owned
      → All (IsListed owner_id w.files) owned
      → Emptied owner_id purged owned w
  unfolding purge_batch
  purge_batch-Emptied owner_id purged [] w u v h = record {
    after = w;
    runs = ap (λ n. (ok n, w)) (omega arith);
    unique = u;
    fewer = omega arith;
    others = refl;
    gone = tt;
    stays_gone = λ id e. e;
  }
  purge_batch-Emptied owner_id purged (f ∷ owned) w u v h =
      let (r, m, e, o) = h.0 in
      let (fewer, same) = count-without owner_id f.id w.files u m e o in
      let next : World storage.Objects = record {
        files = without f.id w.files;
        objects = (storage.remove f.storage_key w.objects).1;
      } in
      let rest : Emptied owner_id (purged + 1) owned next =
        purge_batch-Emptied owner_id (purged + 1) owned next (IsUnique-keep same_id _ w.files u) v.1
          (rest_listed f owned w.files v.0 h.1) in
      record {
        after = rest.after;
        runs = rw (remove_file_lem f w) (rest.runs ∙ ap (λ n. (ok n, rest.after)) (omega arith));
        unique = rest.unique;
        fewer = omega (arith, fewer, rest.fewer);
        others = rest.others ∙ same;
        gone = (rest.stays_gone f.id (any-without f.id w.files), rest.gone);
        stays_gone = λ id q. rest.stays_gone id (any-without_other id f.id w.files q);
      }
    where
      rest_listed :
          (f : StoredFile) (owned files : List StoredFile)
          → any (same_id f) owned ≡ false
          → All (IsListed owner_id files) owned
          → All (IsListed owner_id (without f.id files)) owned
      rest_listed f owned files apart listed =
          All-map (λ g q. without-IsListed owner_id f.id files g (ground (arith, q.0)) q.1) owned
            (All-both (λ g. same_id f g ≡ false) (IsListed owner_id files) owned
              (any-false (same_id f) owned apart) listed)

  -- The rows of the owner, behind themselves.
  rows-IsListed :
      (owner_id : ℕ) (files : List StoredFile)
      → All (IsListed owner_id files) (keep (is_owned owner_id) files)
  rows-IsListed owner_id files =
      All-map (λ r q. (r, q.0, refl, (==_iff r.owner_id owner_id).0 q.1)) _
        (All-keep (λ r. Memᴰ r files) (is_owned owner_id) files (All-self files))

  -- What a round finds: rows of the owner, each once, and none only if there are none.
  record Found (owner_id : ℕ) (files owned : List StoredFile) : Type 0 where
    listed : All (IsListed owner_id files) owned
    apart : IsUnique same_id owned
    some_left : length owned ≡ min purge_batch_size (count (is_owned owner_id) files)

  find_all_by_owner-Found :
      (owner_id : ℕ) (files : List StoredFile)
      → IsUnique same_id files
      → Found owner_id files (find_all_by_owner prisma owner_id purge_batch_size files)
  unfolding find_all_by_owner
  find_all_by_owner-Found owner_id files u =
      let rows : List StoredFile = keep (is_owned owner_id) files in
      let sorted : List StoredFile = prisma.order_by oldest_first rows in
      let same : Permᴰ sorted rows = prisma.order_by-perm oldest_first rows in
      record {
        listed = All-image (IsListed owner_id files) to_aggregate _ (
            All-take (IsListed owner_id files) purge_batch_size sorted
              (All-perm (IsListed owner_id files) same (rows-IsListed owner_id files)));
        apart =
            IsUnique-image same_id to_aggregate _ (λ a b. refl)
              (IsUnique-take same_id purge_batch_size sorted
                (IsUnique-perm same_id same_id_comm same (IsUnique-keep same_id _ files u)));
        some_left =
            length-map to_aggregate (take purge_batch_size sorted)
            ∙ length-take purge_batch_size sorted
            ∙ ap (min purge_batch_size) (length-perm same ∙ length-keep (is_owned owner_id) files);
      }

  -- Before a round: no row is left of the file that headed the last one.
  abbrev IsPast : Option ℕ → List StoredFile → Type 0
  IsPast none files = Unit
  IsPast (some id) files = any (λ (r : StoredFile). id == r.id) files ≡ false

  -- The loop ends without an error, reports every file of the owner, and leaves the others' rows.
  abbrev Ends : ℕ → ℕ → World storage.Objects → Option (Result ℕ × World storage.Objects) → Type 0
  Ends owner_id purged w r =
      (v : World storage.Objects) × (r ≡ some (ok (purged + count (is_owned owner_id) w.files), v))
      × (count (is_owned owner_id) v.files ≡ 0)
      × (keep (is_other owner_id) v.files ≡ keep (is_other owner_id) w.files)

  is_head-IsPast :
      (previous_head : Option ℕ) (f : StoredFile) (owner_id : ℕ) (files : List StoredFile)
      → IsPast previous_head files
      → IsListed owner_id files f
      → is_head previous_head f.id ≡ false
  is_head-IsPast none f owner_id files past listed = refl
  is_head-IsPast (some id) f owner_id files past (r, m, e, o) =
      ground
        (arith, All-mem (λ (y : StoredFile). id == y.id ≡ false) files (any-false _ files past) m)

  purge_round-Ends :
      (fuel owner_id : ℕ) (previous_head : Option ℕ) (purged : ℕ) (w : World storage.Objects)
      (owned : List StoredFile)
      → Found owner_id w.files owned
      → IsUnique same_id w.files
      → IsPast previous_head w.files
      → count (is_owned owner_id) w.files < suc fuel
      → ((head : Option ℕ) (n : ℕ) (v : World storage.Objects)
          → count (is_owned owner_id) v.files < fuel
          → IsUnique same_id v.files
          → IsPast head v.files
          → Ends owner_id n v (purge_loop prisma storage fuel owner_id head n v))
      → Ends owner_id purged w (
          purge_round prisma storage
            (purge_loop prisma storage fuel owner_id)
            owned
            previous_head
            purged
            w)
  unfolding purge_round purge_on
  purge_round-Ends fuel owner_id previous_head purged w [] found u past h ih = (
    w,
    ap (λ n. some (ok n, w)) (omega (arith, found.some_left)),
    omega (arith, found.some_left),
    refl,
  )
  purge_round-Ends fuel owner_id previous_head purged w (f ∷ owned) found u past h ih =
      let b : Emptied owner_id purged (f ∷ owned) w =
        purge_batch-Emptied owner_id purged (f ∷ owned) w u found.apart found.listed in
      let (v, runs, none_left, same) =
        ih (some f.id) (purged + length (f ∷ owned)) b.after (omega (arith, b.fewer, h)) b.unique
          b.gone.0 in
      (
        v,
        rw (is_head-IsPast previous_head f owner_id w.files past found.listed.0, b.runs)
            (runs ∙ ap (λ n. some (ok n, v)) (omega (arith, b.fewer))),
        none_left,
        same ∙ b.others,
      )

  purge_loop-Ends :
      (fuel owner_id : ℕ) (previous_head : Option ℕ) (purged : ℕ) (w : World storage.Objects)
      → count (is_owned owner_id) w.files < fuel
      → IsUnique same_id w.files
      → IsPast previous_head w.files
      → Ends owner_id purged w (purge_loop prisma storage fuel owner_id previous_head purged w)
  unfolding purge_loop
  purge_loop-Ends zero owner_id previous_head purged w h u past = elim h [ ]
  purge_loop-Ends (suc fuel) owner_id previous_head purged w h u past =
      purge_round-Ends fuel owner_id previous_head purged w _
        (find_all_by_owner-Found owner_id w.files u) u past h (purge_loop-Ends fuel owner_id)

keep_others :
    (owner_id : ℕ) (files : List StoredFile)
    → count (is_owned owner_id) files ≡ 0
    → keep (is_other owner_id) files ≡ files
keep_others owner_id [] h = refl
keep_others owner_id (r ∷ files) h = ground (arith, keep_others owner_id files)

-- Where the storage removes what it is told to, the purge ends within one round more than the owner
-- has files, without an error and without tripping its own progress guard: it reports the number of
-- the owner's files, and exactly the rows of the other owners are left.
pub purge_total :
    (prisma : PrismaClient) (storage : FileStorage) (fuel owner_id : ℕ) (w : World storage.Objects)
    → ((k : String) (o : storage.Objects) → (storage.remove k o).0 ≡ ok tt)
    → IsUnique same_id w.files
    → count (is_owned owner_id) w.files < fuel
    → (v : World storage.Objects) × (purge prisma storage fuel owner_id w
        ≡ some (ok (count (is_owned owner_id) w.files), v))
      × (v.files ≡ keep (is_other owner_id) w.files)
unfolding purge
purge_total prisma storage fuel owner_id w reliable u h =
    let (v, runs, none_left, same) =
      purge_loop-Ends prisma storage reliable fuel owner_id none 0 w h u tt in
    (
      v,
      runs ∙ ap (λ n. some (ok n, v)) (omega arith),
      sym (keep_others owner_id v.files none_left) ∙ same,
    )
