-- ===== src/Tree/Match.antt =====
-- `match_prefix` in kv_cache/radix_tree.py, against the sequences that are chains of whole edges.
use nano_kvrouter.Prelude.{
  ℕ, zero, suc, ◌+◌, ◌-◌, ◌≤◌, ◌<◌, ◌≡◌, inl, inr, refl, subst, Bool, true, false, ◌&&◌, ◌||◌, List,
  [], ◌∷◌, length, arith, ◌==◌, leb, ltb, take, drop, length-drop, ==_iff, Bool-cases,
}
use nano_kvrouter.Tree.{Label, Forest, empty, child, cp_len, walk}
use nano_kvrouter.Tree.Blocks.{IsEdge, absent, IsWellFormed}

-- us[:len(key)] == key
unfoldable pub starts : List ℕ → List ℕ → Bool
starts [] us = true
starts (k ∷ ks) [] = false
starts (k ∷ ks) (u ∷ us) = k == u && starts ks us

-- The tokens are a chain of whole edges from here: no dispatch on a first token, no order of search.
unfoldable pub cached : {T : Type 0} → Forest T → List ℕ → Bool
unfolding starts
cached f [] = true
cached empty (t ∷ ts) = false
cached (child c l kids rest) (t ∷ ts) =
    (starts l.key (t ∷ ts) && cached kids (drop (length l.key) (t ∷ ts))) || cached rest (t ∷ ts)

pub cp_len-le : (us key : List ℕ) → (cp_len us key ≤ length us) × (cp_len us key ≤ length key)
unfolding cp_len
cp_len-le [] ys = (omega arith, omega arith)
cp_len-le (x ∷ xs) [] = (omega arith, omega arith)
cp_len-le (x ∷ xs) (y ∷ ys) = let (a, b) = cp_len-le xs ys in (ground (arith, a), ground (arith, b))

-- A common prefix as long as the key is the key.
pub starts-cp_len : (us key : List ℕ) → starts key us ≡ (cp_len us key == length key)
unfolding cp_len starts
starts-cp_len [] [] = refl
starts-cp_len (x ∷ xs) [] = refl
starts-cp_len [] (y ∷ ys) = ground arith
starts-cp_len (x ∷ xs) (y ∷ ys) = ground (arith, starts-cp_len xs ys)

pub starts-take :
    (key us : List ℕ) (m : ℕ) → starts key (take m us) ≡ (starts key us && leb (length key) m)
unfolding starts
starts-take [] us m = ground arith
starts-take (k ∷ ks) [] zero = refl
starts-take (k ∷ ks) [] (suc m) = refl
starts-take (k ∷ ks) (u ∷ us) zero = ground arith
starts-take (k ∷ ks) (u ∷ us) (suc m) = ground (arith, starts-take ks us m)

take-nil : (n : ℕ) → take {A = ℕ} n [] ≡ []
take-nil zero = refl
take-nil (suc n) = refl

pub drop-take : (k m : ℕ) (us : List ℕ) → drop k (take m us) ≡ take (m - k) (drop k us)
drop-take zero m us = let e : m - 0 ≡ m = omega arith in rw e
drop-take (suc k) zero us = let e : 0 - suc k ≡ 0 = omega arith in rw e
drop-take (suc k) (suc m) [] = rw (take-nil (suc m - suc k))
drop-take (suc k) (suc m) (u ∷ us) =
    let e : suc m - suc k ≡ m - k = omega arith in rw e (drop-take k m us)

or-false : (b : Bool) → (b || false) ≡ b
or-false true = refl
or-false false = refl

cached_empty :
    (T : Type 0) (t m : ℕ) (ts : List ℕ) → 0 < m → cached {T = T} empty (take m (t ∷ ts)) ≡ false
unfolding cached
cached_empty T t zero ts h = absurd (omega arith)
cached_empty T t (suc m) ts h = refl

module _ {T : Type 0} where
  pub cached-nil : (f : Forest T) → cached f [] ≡ true
  unfolding cached
  cached-nil empty = refl
  cached-nil (child c l kids rest) = refl

  -- One step down, or on to the next child.
  pub cached_child :
      (c : ℕ) (l : Label T) (kids rest : Forest T) (u : ℕ) (us : List ℕ)
      → cached (child c l kids rest) (u ∷ us) ≡ (
          (starts l.key (u ∷ us) && cached kids (drop (length l.key) (u ∷ us)))
          || cached rest (u ∷ us))
  unfolding cached
  cached_child c l kids rest u us = refl

module _ {T : Type 0} (bs : ℕ) where
  absent-cached :
      (f : Forest T) (t : ℕ) (ts : List ℕ)
      → IsWellFormed bs f
      → absent t f ≡ true
      → cached f (t ∷ ts) ≡ false
  unfolding cached absent starts
  absent-cached empty t ts w a = refl
  absent-cached (child c l kids rest) t ts w a =
      rw (w.0.headed) (ground (arith, absent-cached rest t ts w.3))

  -- What an edge contributes: nothing for tokens that begin otherwise, and all there is for the rest.
  cached_other :
      (c t : ℕ) (l : Label T) (kids rest : Forest T) (ts : List ℕ)
      → IsEdge bs c l
      → (c == t) ≡ false
      → cached (child c l kids rest) (t ∷ ts) ≡ cached rest (t ∷ ts)
  unfolding cached starts
  cached_other c t l kids rest ts e h = rw (e.headed) (ground arith)

  cached_here :
      (c t : ℕ) (l : Label T) (kids rest : Forest T) (ts : List ℕ)
      → IsWellFormed bs (child c l kids rest)
      → (c == t) ≡ true
      → cached (child c l kids rest) (t ∷ ts)
        ≡ (starts l.key (t ∷ ts) && cached kids (drop (length l.key) (t ∷ ts)))
  unfolding cached
  cached_here c t l kids rest ts w h =
      let e : c ≡ t = (==_iff c t).0 h in
      rw (absent-cached rest t ts w.3 (subst (λ x. absent x rest ≡ true) e w.1))
        (or-false (starts l.key (t ∷ ts) && cached kids (drop (length l.key) (t ∷ ts))))

  take_other :
      (c t : ℕ) (l : Label T) (kids rest : Forest T) (ts : List ℕ) (m : ℕ)
      → IsEdge bs c l
      → (c == t) ≡ false
      → cached (child c l kids rest) (take m (t ∷ ts)) ≡ cached rest (take m (t ∷ ts))
  take_other c t l kids rest ts zero e h = rw (cached-nil (child c l kids rest), cached-nil rest)
  take_other c t l kids rest ts (suc m) e h = cached_other c t l kids rest (take m ts) e h

  take_here :
      (c t : ℕ) (l : Label T) (kids rest : Forest T) (ts : List ℕ) (m : ℕ)
      → IsWellFormed bs (child c l kids rest)
      → (c == t) ≡ true
      → 0 < m
      → cached (child c l kids rest) (take m (t ∷ ts)) ≡ (
          (starts l.key (t ∷ ts) && leb (length l.key) m)
          && cached kids (take (m - length l.key) (drop (length l.key) (t ∷ ts))))
  take_here c t l kids rest ts zero w h p = absurd (omega arith)
  take_here c t l kids rest ts (suc m) w h p = rw (
    cached_here c t l kids rest (take m ts) w h,
    starts-take l.key (t ∷ ts) (suc m),
    drop-take (length l.key) (suc m) (t ∷ ts),
  )

  -- The number of matched tokens is a cached prefix, and no longer prefix is cached.
  abbrev pub IsLongest : Forest T → List ℕ → ℕ → Type 0
  IsLongest f us n =
      (n ≤ length us)
      × (cached f (take n us) ≡ true)
      × ((m : ℕ) → n < m → m ≤ length us → cached f (take m us) ≡ false)

  -- A node whose key the tokens begin with adds the key to what is matched below it.
  IsLongest-whole :
      (c t : ℕ) (l : Label T) (kids rest : Forest T) (ts : List ℕ) (n : ℕ)
      → IsWellFormed bs (child c l kids rest)
      → (c == t) ≡ true
      → starts l.key (t ∷ ts) ≡ true
      → length l.key ≤ length (t ∷ ts)
      → IsLongest kids (drop (length l.key) (t ∷ ts)) n
      → IsLongest (child c l kids rest) (t ∷ ts) (length l.key + n)
  IsLongest-whole c t l kids rest ts n w here whole fits (a, b, d) =
      let key_pos : 0 < length l.key = rw (w.0.headed) (omega arith) in
      let back : length l.key + n - length l.key ≡ n = omega arith in
      let left : length (drop (length l.key) (t ∷ ts)) ≡ length (t ∷ ts) - length l.key =
        length-drop (length l.key) (t ∷ ts) in
      (
        omega (arith, left, a),
        rw (take_here c t l kids rest ts (length l.key + n) w here (omega arith), whole, back, b)
            (ground arith),
        λ m h k.
            rw
              (
                take_here c t l kids rest ts m w here (omega arith),
                whole,
                d (m - length l.key) (omega arith) (omega (arith, left)),
              )
              (ground arith),
      )

  IsLongest-part :
      (c t : ℕ) (l : Label T) (kids rest : Forest T) (ts : List ℕ)
      → IsWellFormed bs (child c l kids rest)
      → (c == t) ≡ true
      → starts l.key (t ∷ ts) ≡ false
      → IsLongest (child c l kids rest) (t ∷ ts) 0
  IsLongest-part c t l kids rest ts w here part = (
    omega arith,
    cached-nil (child c l kids rest),
    λ m h k. rw (take_here c t l kids rest ts m w here h, part),
  )

  IsLongest-other :
      (c t : ℕ) (l : Label T) (kids rest : Forest T) (ts : List ℕ) (n : ℕ)
      → IsEdge bs c l
      → (c == t) ≡ false
      → IsLongest rest (t ∷ ts) n
      → IsLongest (child c l kids rest) (t ∷ ts) n
  IsLongest-other c t l kids rest ts n e other (a, b, d) = (
    a,
    rw (take_other c t l kids rest ts n e other) b,
    λ m h k. rw (take_other c t l kids rest ts m e other) (d m h k),
  )

  pub walk-IsLongest :
      (now : T) (us : List ℕ) (f : Forest T) → IsWellFormed bs f → IsLongest f us (walk now us f).0
  unfolding walk
  walk-IsLongest now [] f w = (omega arith, cached-nil f, λ m h k. absurd (omega arith))
  walk-IsLongest now (t ∷ ts) empty w =
      (omega arith, cached-nil empty, λ m h k. cached_empty T t m ts h)
  walk-IsLongest now (t ∷ ts) (child c l kids rest) w = elim (Bool-cases (c == t)) [
    | inr other ↦
        rw other
          (IsLongest-other c t l kids rest ts _ w.0 other (walk-IsLongest now (t ∷ ts) rest w.3))
    | inl here ↦ elim (Bool-cases (starts l.key (t ∷ ts))) [
      | inr part ↦
          let short : ltb (cp_len (t ∷ ts) l.key) (length l.key) ≡ true =
            ground (arith, starts-cp_len (t ∷ ts) l.key, (cp_len-le (t ∷ ts) l.key).1) in
          rw (here, short) (IsLongest-part c t l kids rest ts w here part)
      | inl whole ↦
          let e : cp_len (t ∷ ts) l.key ≡ length l.key =
            ground (arith, starts-cp_len (t ∷ ts) l.key) in
          let long : ltb (length l.key) (length l.key) ≡ false = ground arith in
          let fits : length l.key ≤ length (t ∷ ts) =
            omega (arith, e, (cp_len-le (t ∷ ts) l.key).0) in
          rw (here, e, long)
            (IsLongest-whole c t l kids rest ts _ w here whole fits
              (walk-IsLongest now (drop (length l.key) (t ∷ ts)) kids w.2))
    ]
  ]
