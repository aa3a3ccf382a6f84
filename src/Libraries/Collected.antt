-- ===== src/Libraries/Collected.antt =====
-- What collecting search paths keeps, and what it adds.
use duck_tiny_cc.Prelude.{
  Bool-cases, length, codes, ◌+◌, ◌≡◌, refl, sym, ◌∙◌, inl, inr, Bool, true, false, ◌||◌, Option,
  none, some, List, [], ◌∷◌, ◌++◌, arith,
}
use duck_tiny_cc.Strings.{Chars, trim, path_join}
use duck_tiny_cc.StringList.{
  StringList, contains_item, contains, Answer, store_copy, append, append_unique, Heap, and_then,
  append_each, path_tokens, append_token, append_tokens, append_env_path_list,
}
use duck_tiny_cc.StringList.Search.{distinct, contains-append, distinct-append, same-contains}
use duck_tiny_cc.Growth.{u64, Reserved, reserved, failed, hangs, Malloc}
use duck_tiny_cc.Result.{Calls, inside, nth, numbered}
use duck_tiny_cc.Libraries.{
  platform_paths, add_platform_library_paths, add_path, add_runtime, collect_library_search_paths,
}
use duck_tiny_cc.StringList.Env.{keep, clean}

abbrev pub Among : List Chars → List Chars → Type 0
Among vs ss = (w : Chars) → contains_item vs w ≡ true → contains_item ss w ≡ true

-- No string is lost, none is there twice that was not, and on success those of `vs` are there.
abbrev pub Collects : StringList → List Chars → Answer → Type 0
Collects l vs a =
    (distinct l.items ≡ true → distinct (a.1.items) ≡ true)
    × Among l.items (a.1.items)
    × (a.0 ≡ true → Among vs (a.1.items))

contains_none : (w : Chars) → contains_item [] w ≡ false
unfolding contains_item
contains_none w = refl

Among-none : (ss : List Chars) → Among [] ss
Among-none ss w h = cc (h, contains_none w)

Collects-same : (b : Bool) (l : StringList) → Collects l [] (b, l)
Collects-same b l = ((λ d. d), (λ w h. h), λ e. Among-none l.items)

contains_item-append :
    (vs ws : List Chars) (w : Chars)
    → contains_item (vs ++ ws) w ≡ (contains_item vs w || contains_item ws w)
unfolding contains_item
contains_item-append [] ws w = refl
contains_item-append (v ∷ vs) ws w = rw (contains_item-append vs ws w) (ground arith)

Among-append : (vs ws ss : List Chars) → Among vs ss → Among ws ss → Among (vs ++ ws) ss
Among-append vs ws ss h k w e = elim (Bool-cases (contains_item vs w)) [
  | inl y ↦ h w y
  | inr n ↦
      k w
        (rest (contains_item vs w) (contains_item ws w) (sym (contains_item-append vs ws w) ∙ e) n)
]
  where
    rest : (a b : Bool) → (a || b) ≡ true → a ≡ false → b ≡ true
    rest a b h k = grind arith

-- A step and what follows it.
Collects-then :
    (l : StringList) (vs ws : List Chars) (a : Answer) (f : StringList → Answer)
    → Collects l vs a
    → ((k : StringList) → Collects k ws (f k))
    → Collects l (vs ++ ws) (and_then a f)
Collects-then l vs ws (true, k) f (d, i, s) g =
    let (d', i', s') = g k in
    (
      (λ x. d' (d x)),
      (λ w h. i' w (i w h)),
      λ e. Among-append vs ws _ (λ w h. i' w (s refl w h)) (s' e),
    )
Collects-then l vs ws (false, k) f (d, i, s) g = (d, i, λ e. cc e)

-- The list with one string more.
Collects-push :
    (l k : StringList) (v : Chars)
    → contains_item l.items v ≡ false
    → k.items ≡ l.items ++ v ∷ []
    → Collects l (v ∷ []) (true, k)
unfolding contains_item
Collects-push l k v n e = (
  (λ d. rw e (distinct-append l.items v d n)),
  (λ w h. rw (e, contains-append l.items v w, h) refl),
  λ x w h. rw (e, contains-append l.items v w) (ground (arith, h)),
)

Collects-fail : (l k : StringList) (vs : List Chars) → k.items ≡ l.items → Collects l vs (false, k)
Collects-fail l k vs e = ((λ d. rw e d), (λ w h. rw e h), λ x. cc x)

store_copy-Collects :
    (copy : Malloc) (l : StringList) (v : Chars) (r : Reserved)
    → contains_item l.items v ≡ false
    → Collects l (v ∷ []) (store_copy copy l v r)
store_copy-Collects copy l v (reserved n) h = elim (Bool-cases (copy (u64 (length v + 1)))) [
  | inl y ↦ rw y (Collects-push l (record { items = l.items ++ v ∷ []; capacity = n }) v h refl)
  | inr m ↦ rw m (Collects-fail l (record l { capacity = n }) (v ∷ []) refl)
]
store_copy-Collects copy l v failed h = Collects-fail l l (v ∷ []) refl
store_copy-Collects copy l v hangs h = Collects-fail l l (v ∷ []) refl

append_unique-Collects :
    (room copy : Malloc) (l : StringList) (v : Chars)
    → Collects l (v ∷ []) (append_unique room copy l v)
unfolding append_unique append contains contains_item
append_unique-Collects room copy l [] = Collects-fail l l ([] ∷ []) refl
append_unique-Collects room copy l (c ∷ v) = elim (Bool-cases (contains_item l.items (c ∷ v))) [
  | inl y ↦
      rw y ((λ d. d), (λ w h. h), λ e w h. same-contains l.items (c ∷ v) w y (ground (arith, h)))
  | inr n ↦ rw n (store_copy-Collects copy l (c ∷ v) _ n)
]

append_each-Collects :
    (heap : Heap) (l : StringList) (vs : List Chars) → Collects l vs (append_each heap l vs)
unfolding append_each
append_each-Collects heap l [] = Collects-same true l
append_each-Collects heap l (v ∷ vs) =
    Collects-then l (v ∷ []) vs _ _ (append_unique-Collects (heap 0) (heap 1) l v)
      λ k. append_each-Collects (λ i. heap (i + 2)) k vs

-- Less is promised.
Collects-less : (l : StringList) (vs : List Chars) (a : Answer) → Collects l vs a → Collects l [] a
Collects-less l vs a (d, i, s) = (d, i, λ e. Among-none (a.1.items))

-- The runtime path, or another string, where one is given.
abbrev pub given : Option Chars → List Chars
given none = []
given (some []) = []
given (some (c ∷ s)) = (c ∷ s) ∷ []

-- The tokens of a list of paths, trimmed, without the empty ones.
abbrev pub listed : Option Chars → List Chars
listed none = []
listed (some []) = []
listed (some (c ∷ s)) = clean (path_tokens (c ∷ s))

append_token-Collects :
    (heap : Heap) (l : StringList) (v : Chars) (vs : List Chars) (rest : Heap → StringList → Answer)
    → ((h : Heap) (k : StringList) → Collects k vs (rest h k))
    → Collects l (keep v vs) (append_token heap l v rest)
append_token-Collects heap l [] vs rest g = g heap l
append_token-Collects heap l (c ∷ v) vs rest g =
    elim (Bool-cases (heap 0 (u64 (length (c ∷ v) + 1)))) [
      | inl y ↦ rw y (
          Collects-then l ((c ∷ v) ∷ []) vs _ _ (append_unique-Collects (heap 1) (heap 2) l (c ∷ v))
            (g (λ i. heap (i + 3))))
      | inr n ↦ rw n ((λ d. d), (λ w h. h), λ e. cc e)
    ]

append_tokens-Collects :
    (ts : List Chars) (heap : Heap) (l : StringList)
    → Collects l (clean ts) (append_tokens heap l ts)
unfolding append_tokens
append_tokens-Collects [] heap l = Collects-same true l
append_tokens-Collects (t ∷ ts) heap l =
    append_token-Collects heap l (trim t) (clean ts) (λ h k. append_tokens h k ts)
      λ h k. append_tokens-Collects ts h k

append_env_path_list-Collects :
    (heap : Heap) (l : StringList) (o : Option Chars)
    → Collects l (listed o) (append_env_path_list heap l o)
unfolding append_env_path_list
append_env_path_list-Collects heap l none = Collects-same true l
append_env_path_list-Collects heap l (some []) = Collects-same true l
append_env_path_list-Collects heap l (some (c ∷ s)) =
    append_tokens-Collects (path_tokens (c ∷ s)) heap l

add_path-Collects :
    (heap : Heap) (l : StringList) (o : Option Chars) → Collects l (given o) (add_path heap l o)
add_path-Collects heap l none = Collects-same true l
add_path-Collects heap l (some []) =
    Collects-less l ([] ∷ []) (append_unique (heap 1) (heap 2) l [])
      (append_unique-Collects (heap 1) (heap 2) l [])
add_path-Collects heap l (some (c ∷ p)) = append_unique-Collects (heap 1) (heap 2) l (c ∷ p)

-- The runtime path, and `lib` and `lib/tcc` in it where the memory for their paths is granted.
abbrev pub runtime_paths : Calls → Option Chars → List Chars
runtime_paths calls none = []
runtime_paths calls (some []) = []
runtime_paths calls (some (c ∷ s)) =
    (c ∷ s)
    ∷ (given (path_join (nth (inside calls 2) 0) (c ∷ s) (codes "lib"))
        ++ given (path_join (nth (inside calls 3) 0) (c ∷ s) (codes "lib/tcc")))

add_runtime-Collects :
    (calls : Calls) (o : Option Chars) (l : StringList)
    → Collects l (runtime_paths calls o) (add_runtime calls o l)
add_runtime-Collects calls none l = Collects-same true l
add_runtime-Collects calls (some []) l = Collects-same true l
add_runtime-Collects calls (some (c ∷ s)) l =
    Collects-then l ((c ∷ s) ∷ []) _ _ _
      (append_unique-Collects (nth calls 0) (nth calls 1) l (c ∷ s))
      λ l1.
        Collects-then l1 (given (path_join (nth (inside calls 2) 0) (c ∷ s) (codes "lib"))) _ _ _
          (add_path-Collects (numbered (inside calls 2)) l1
            (path_join (nth (inside calls 2) 0) (c ∷ s) (codes "lib")))
          λ l2.
            add_path-Collects (numbered (inside calls 3)) l2
              (path_join (nth (inside calls 3) 0) (c ∷ s) (codes "lib/tcc"))

-- All that is to be searched.
abbrev pub search_paths : Calls → (Chars → Option Chars) → Option Chars → Option Chars → List Chars
search_paths calls env runtime_path extra_paths =
    runtime_paths (inside calls 0) runtime_path
    ++ (listed extra_paths
        ++ (platform_paths
            ++ (listed (env (codes "LD_LIBRARY_PATH")) ++ listed (env (codes "LIBRARY_PATH")))))

-- Collecting the search paths for libraries loses none that the list has, and a list without
-- repetitions stays one, whatever is refused. Where it succeeds, the list has the runtime path, its
-- `lib` and `lib/tcc` where the memory to join them is granted, the paths of the platform, and the
-- trimmed tokens of the extra paths, of LD_LIBRARY_PATH and of LIBRARY_PATH.
pub collect_library_search_paths-Collects :
    (calls : Calls) (env : Chars → Option Chars) (runtime_path extra_paths : Option Chars)
    (l : StringList)
    → Collects l
        (search_paths calls env runtime_path extra_paths)
        (collect_library_search_paths calls env runtime_path extra_paths l)
unfolding collect_library_search_paths add_platform_library_paths
collect_library_search_paths-Collects calls env runtime_path extra_paths l =
    Collects-then l (runtime_paths (inside calls 0) runtime_path) _ _ _
      (add_runtime-Collects (inside calls 0) runtime_path l)
      λ l1.
        Collects-then l1 (listed extra_paths) _ _ _
          (append_env_path_list-Collects (numbered (inside calls 1)) l1 extra_paths)
          λ l2.
            Collects-then l2 platform_paths _ _ _
              (append_each-Collects (numbered (inside calls 2)) l2 platform_paths)
              λ l3.
                Collects-then l3 (listed (env (codes "LD_LIBRARY_PATH"))) _ _ _
                  (append_env_path_list-Collects (numbered (inside calls 3)) l3
                    (env (codes "LD_LIBRARY_PATH")))
                  λ l4.
                    append_env_path_list-Collects (numbered (inside calls 4)) l4
                      (env (codes "LIBRARY_PATH"))
