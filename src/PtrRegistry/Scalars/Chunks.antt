-- ===== src/PtrRegistry/Scalars/Chunks.antt =====
-- What a chunk of calls does, told of the allocations alone: the SQL functions over the pointer
-- registry in src/tcc_module.c against tables of which handle holds which bytes.
use mathlib.Core.Option
use mathlib.Core.Path.{ap₂, fun_ext}
use duck_tiny_cc.PtrRegistry.{Host, get_ptr_size, write}
use duck_tiny_cc.Prelude.{
  ◌==◌, if◌then◌else◌, length, ℕ, ◌≡◌, refl, ap, ◌∙◌, Bool, true, ◌&&◌, Option, none, some, List,
  [], ◌∷◌, map, arith,
}
use duck_tiny_cc.PtrRegistry.Sound.{IsSound}
use duck_tiny_cc.PtrRegistry.View.{Store, view}
use duck_tiny_cc.PtrRegistry.Release.{is_some, nonzero, free_refines}
use duck_tiny_cc.PtrRegistry.Access.{read_block, write_block, write_refines, read_refines}
use duck_tiny_cc.PtrRegistry.Destroy.{Sizes, unknown, known, get_ptr_size_refines}
use duck_tiny_cc.PtrRegistry.Scalars.{
  each_row, free_row, free_ptr_scalar, ptr_size_row, ptr_size_scalar, read_row, read_scalar,
  write_row, write_scalar, write_bytes_row, write_bytes_scalar,
}

-- A loop over rows, on such a table.
abbrev pub each_on {ℓ κ} :
    {A : Type ℓ} {B : Type κ} → (A → Store → B × Store) → List A → Store → List B × Store
each_on g [] t = ([], t)
each_on g (a ∷ rows) t = let (b, u) = g a t in let (bs, v) = each_on g rows u in (b ∷ bs, v)

-- A handle that holds bytes is freed and answers true; any other answers false; NULL is passed on.
abbrev pub free_on : Option ℕ → Store → Option Bool × Store
free_on none t = (none, t)
free_on (some h) t = (some (is_some (t h)), λ j. if h == j then none else t j)

-- The bytes go where they fit, and the answer says whether they did; a NULL leaves all as it is.
abbrev pub write_on : Option ℕ × Option ℕ × Option (List ℕ) → Store → Option Bool × Store
write_on (none, off, value) t = (none, t)
write_on (some h, none, value) t = (none, t)
write_on (some h, some off, none) t = (none, t)
write_on (some h, some off, some bytes) t =
    let after = write_block off bytes (t h) in
    (some (is_some after), λ j. if (h == j) && is_some after then after else t j)

-- The empty blob is written without a look at the handle.
abbrev pub write_bytes_on : Option ℕ × Option ℕ × Option (List ℕ) → Store → Option Bool × Store
write_bytes_on (some h, some off, some []) t = (some true, t)
write_bytes_on row t = write_on row t

-- The same answers, and the same table afterwards, in a registry that is sound.
pub record Follows {κ} {B : Type κ} (r : B × Host) (q : B × Store) : Type κ where
  pub answers : r.0 ≡ q.0
  pub holds : view r.1 ≡ q.1
  pub sound : IsSound r.1

abbrev RowFollows {ℓ κ} :
    {A : Type ℓ} {B : Type κ} → (A → Host → B × Host) → (A → Store → B × Store) → Type (ℓ ⊔ κ)
RowFollows {A} f g = (a : A) (s : Host) → IsSound s → Follows (f a s) (g a (view s))

-- One row, and then the rest.
each_row-Follows {ℓ κ} :
    {A : Type ℓ} {B : Type κ} (f : A → Host → B × Host) (g : A → Store → B × Store)
    → RowFollows f g
    → (rows : List A) (s : Host) → IsSound s
    → Follows (each_row f rows s) (each_on g rows (view s))
unfolding each_row
each_row-Follows f g row [] s v = record { answers = refl; holds = refl; sound = v }
each_row-Follows f g row (a ∷ rows) s v =
    let one = row a s v in
    let rest = each_row-Follows f g row rows (f a s).1 one.sound in
    record {
      answers =
          ap₂ (λ b bs. b ∷ bs) one.answers
            (rest.answers ∙ ap (λ t. (each_on g rows t).0) one.holds);
      holds = rest.holds ∙ ap (λ t. (each_on g rows t).1) one.holds;
      sound = rest.sound;
    }

free_row-Follows : RowFollows free_row free_on
unfolding free_row
free_row-Follows none s v = record { answers = refl; holds = refl; sound = v }
free_row-Follows (some h) s v =
    let f = free_refines s h v in
    record { answers = ap some f.answer; holds = fun_ext f.view_after; sound = f.sound }

-- The answer of a write in the registry stands for that of the table.
write-Follows :
    (s : Host) (h off : ℕ) (bytes : List ℕ)
    → IsSound s
    → Follows
        (some (write h off bytes s).0, (write h off bytes s).1)
        (write_on (some h, some off, some bytes) (view s))
write-Follows s h off bytes v =
    let w = write_refines s h off bytes v in
    record {
      answers = ap some w.answer;
      holds =
          fun_ext w.view_after
          ∙ ap (λ b. λ j. if (h == j) && b then write_block off bytes (view s h) else view s j)
              w.answer;
      sound = w.sound;
    }

write_row-Follows : RowFollows write_row write_on
unfolding write_row
write_row-Follows (none, off, value) s v = record { answers = refl; holds = refl; sound = v }
write_row-Follows (some h, none, value) s v = record { answers = refl; holds = refl; sound = v }
write_row-Follows (some h, some off, none) s v = record { answers = refl; holds = refl; sound = v }
write_row-Follows (some h, some off, some bytes) s v = write-Follows s h off bytes v

write_bytes_row-Follows : RowFollows write_bytes_row write_bytes_on
unfolding write_bytes_row
write_bytes_row-Follows (none, off, value) s v = record { answers = refl; holds = refl; sound = v }
write_bytes_row-Follows (some h, none, value) s v = record {
  answers = refl;
  holds = refl;
  sound = v;
}
write_bytes_row-Follows (some h, some off, none) s v = record {
  answers = refl;
  holds = refl;
  sound = v;
}
write_bytes_row-Follows (some h, some off, some []) s v = record {
  answers = refl;
  holds = refl;
  sound = v;
}
write_bytes_row-Follows (some h, some off, some (b ∷ bytes)) s v =
    rw (nonzero (length (b ∷ bytes)) (omega arith)) (write-Follows s h off (b ∷ bytes) v)

-- In a sound registry, a chunk of `tcc_free_ptr`, of `tcc_write_*` or of `tcc_write_bytes` gives in
-- each row the answer, and leaves behind it the allocations, that the rows in order give on the table
-- of which handle holds which bytes: a free empties the handle, a write of a span that is not empty
-- and fits replaces it, an empty blob and a NULL change nothing. The registry stays sound.
pub chunk-Follows :
    (s : Host) (handles : List (Option ℕ)) (rows : List (Option ℕ × Option ℕ × Option (List ℕ)))
    → IsSound s
    → Follows (free_ptr_scalar handles s) (each_on free_on handles (view s))
      × Follows (write_scalar rows s) (each_on write_on rows (view s))
      × Follows (write_bytes_scalar rows s) (each_on write_bytes_on rows (view s))
unfolding free_ptr_scalar write_scalar write_bytes_scalar
chunk-Follows s handles rows v = (
  each_row-Follows free_row free_on free_row-Follows handles s v,
  each_row-Follows write_row write_on write_row-Follows rows s v,
  each_row-Follows write_bytes_row write_bytes_on write_bytes_row-Follows rows s v,
)

-- What the queries show of a table.
abbrev pub size_on : Store → Option ℕ → Option ℕ
size_on t none = none
size_on t (some h) = Option.map length (t h)

abbrev pub read_on : ℕ → Store → Option ℕ × Option ℕ → Option (List ℕ)
read_on width t (none, off) = none
read_on width t (some h, none) = none
read_on width t (some h, some off) = read_block off width (t h)

size_of-Sizes :
    (s : Host) (h : ℕ) (o : Option (ℕ × ℕ))
    → Sizes s h o
    → Option.map (λ r. r.1) o ≡ Option.map length (view s h)
size_of-Sizes s h none (unknown u) = rw u refl
size_of-Sizes s h (some _) (known p b pos m u) = rw u refl

map-eq {ℓ κ} :
    {A : Type ℓ} {B : Type κ} (f g : A → B)
    → ((a : A) → f a ≡ g a)
    → (xs : List A) → map f xs ≡ map g xs
map-eq f g e [] = refl
map-eq f g e (x ∷ xs) = ap₂ (λ b bs. b ∷ bs) (e x) (map-eq f g e xs)

-- In a sound registry, a chunk of `tcc_ptr_size` gives for each row the number of bytes that the
-- handle holds, and a chunk of `tcc_read_*` the bytes of the span where it ends inside them; a row
-- with a NULL, with a handle that holds nothing, or with a span to read that is empty or does not fit
-- gives NULL.
pub query_chunks :
    (s : Host) (handles : List (Option ℕ)) (width : ℕ) (rows : List (Option ℕ × Option ℕ))
    → IsSound s
    → (ptr_size_scalar handles s ≡ map (size_on (view s)) handles)
      × (read_scalar width rows s ≡ map (read_on width (view s)) rows)
unfolding ptr_size_scalar read_scalar ptr_size_row read_row
query_chunks s handles width rows v = (
  map-eq (ptr_size_row s) (size_on (view s)) size handles,
  map-eq (read_row width s) (read_on width (view s)) bytes rows,
)
  where
    size : (h : Option ℕ) → ptr_size_row s h ≡ size_on (view s) h
    size none = refl
    size (some h) = size_of-Sizes s h (get_ptr_size h s) (get_ptr_size_refines s h v)

    bytes : (r : Option ℕ × Option ℕ) → read_row width s r ≡ read_on width (view s) r
    bytes (none, off) = refl
    bytes (some h, none) = refl
    bytes (some h, some off) = read_refines s h off width v
