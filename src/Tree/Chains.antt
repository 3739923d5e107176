-- ===== src/Tree/Chains.antt =====
-- How cached sequences pass through the two halves of a split edge, and past a grown child.
use nano_kvrouter.Prelude.{
  ℕ, zero, suc, ◌+◌, ◌<◌, ◌≡◌, inl, inr, refl, Bool, true, false, ◌&&◌, ◌||◌, List, [], ◌∷◌, length,
  arith, ◌==◌, take, drop, length-drop, length-take, ==_refl, Bool-cases,
}
use nano_kvrouter.Tree.{Label, Forest, child, cp_len, first_token}
use nano_kvrouter.Tree.Match.{starts, cached, cached-nil, cached_child}

pub starts-split :
    (cp : ℕ) (key us : List ℕ)
    → starts key us ≡ (starts (take cp key) us && starts (drop cp key) (drop cp us))
unfolding starts
starts-split zero key us = refl
starts-split (suc cp) [] us = refl
starts-split (suc cp) (k ∷ ks) [] = refl
starts-split (suc cp) (k ∷ ks) (u ∷ us) = ground (arith, starts-split cp ks us)

drop-nil : (n : ℕ) → drop {A = ℕ} n [] ≡ []
drop-nil zero = refl
drop-nil (suc n) = refl

pub drop-drop : (m n : ℕ) (us : List ℕ) → drop n (drop m us) ≡ drop (m + n) us
drop-drop zero n us = let e : 0 + n ≡ n = omega arith in rw e
drop-drop (suc m) n [] = rw (drop-nil n, drop-nil (suc m + n))
drop-drop (suc m) n (u ∷ us) =
    let e : suc m + n ≡ suc (m + n) = omega arith in rw e (drop-drop m n us)

pub starts_self : (us : List ℕ) → starts us us ≡ true
unfolding starts
starts_self [] = refl
starts_self (u ∷ us) = rw (==_refl u) (starts_self us)

-- Up to the common prefix the tokens follow the key; there they part.
pub starts-common : (us key : List ℕ) → starts (take (cp_len us key) key) us ≡ true
unfolding starts cp_len
starts-common [] ys = refl
starts-common (x ∷ xs) [] = refl
starts-common (x ∷ xs) (y ∷ ys) = elim (Bool-cases (x == y)) [
  | inl e ↦ let e' : (y == x) ≡ true = ground arith in rw (e, e') (starts-common xs ys)
  | inr e ↦ rw e
]

less : {m n : ℕ} → suc m < suc n → m < n
less h = omega arith

pub parts :
    (us key : List ℕ) (t : ℕ) (ts : List ℕ)
    → cp_len us key < length key
    → drop (cp_len us key) us ≡ t ∷ ts
    → (first_token (drop (cp_len us key) key) == t) ≡ false
unfolding cp_len first_token
parts [] ys t ts h e = cc
parts (x ∷ xs) [] t ts h e = absurd (omega arith)
parts (x ∷ xs) (y ∷ ys) t ts h e = elim (Bool-cases (x == y)) [
  | inl same ↦ rw same (parts xs ys t ts (less (rw same at h)) (rw same at e))
  | inr other ↦ rw other (ground arith)
]

pub or_left : (a b : Bool) → a ≡ true → (a || b) ≡ true
or_left a b h = rw h

pub or_right : (a b : Bool) → b ≡ true → (a || b) ≡ true
or_right true b h = refl
or_right false b h = h

and_or_mono :
    (a a' b b' d d' : Bool)
    → (a ≡ true → a' ≡ true)
    → (b ≡ true → b' ≡ true)
    → (d ≡ true → d' ≡ true)
    → ((a && b) || d) ≡ true
    → ((a' && b') || d') ≡ true
and_or_mono a a' b b' d d' ha hb hd h = ground arith

and_or_left : (a b d : Bool) → a ≡ true → b ≡ true → ((a && b) || d) ≡ true
and_or_left a b d ha hb = ground arith

and_parts : (a b : Bool) → (a && b) ≡ true → (a ≡ true) × (b ≡ true)
and_parts true b h = (refl, h)
and_parts false b h = cc

module _ {T : Type 0} where
  -- One step of a chain, whatever the tokens.
  pub cached-step :
      (c : ℕ) (l : Label T) (kids rest : Forest T) (us : List ℕ)
      → starts l.key us ≡ true
      → cached kids (drop (length l.key) us) ≡ true
      → cached (child c l kids rest) us ≡ true
  cached-step c l kids rest [] hs hk = cached-nil (child c l kids rest)
  cached-step c l kids rest (u ∷ us) hs hk =
      rw (cached_child c l kids rest u us) (and_or_left _ _ _ hs hk)

  -- More below a node, or after it, caches no less.
  pub cached-kids :
      (c : ℕ) (l l' : Label T) (kids kids' rest : Forest T) (us : List ℕ)
      → l'.key ≡ l.key
      → (cached kids (drop (length l.key) us) ≡ true → cached kids' (drop (length l.key) us) ≡ true)
      → cached (child c l kids rest) us ≡ true
      → cached (child c l' kids' rest) us ≡ true
  cached-kids c l l' kids kids' rest [] e h k = cached-nil (child c l' kids' rest)
  cached-kids c l l' kids kids' rest (u ∷ us) e h k =
      rw (cached_child c l' kids' rest u us, e)
        (and_or_mono (starts l.key (u ∷ us)) _ (cached kids (drop (length l.key) (u ∷ us))) _
          (cached rest (u ∷ us)) _ (λ x. x) h (λ x. x) (rw (cached_child c l kids rest u us) at k))

  pub cached-rest :
      (c : ℕ) (l : Label T) (kids rest rest' : Forest T) (us : List ℕ)
      → (cached rest us ≡ true → cached rest' us ≡ true)
      → cached (child c l kids rest) us ≡ true
      → cached (child c l kids rest') us ≡ true
  cached-rest c l kids rest rest' [] h k = cached-nil (child c l kids rest')
  cached-rest c l kids rest rest' (u ∷ us) h k = rw (cached_child c l kids rest' u us) (
      and_or_mono (starts l.key (u ∷ us)) _ (cached kids (drop (length l.key) (u ∷ us))) _
        (cached rest (u ∷ us)) _ (λ x. x) (λ x. x) h (rw (cached_child c l kids rest u us) at k))

  pub cached-beside :
      (c : ℕ) (l : Label T) (kids rest : Forest T) (us : List ℕ)
      → cached rest us ≡ true
      → cached (child c l kids rest) us ≡ true
  cached-beside c l kids rest [] k = cached-nil (child c l kids rest)
  cached-beside c l kids rest (u ∷ us) k = rw (cached_child c l kids rest u us) (or_right _ _ k)

  -- A chain through an edge is one through its halves.
  pub cached-halves :
      (c cut cp : ℕ) (l mid low : Label T) (kids more rest : Forest T) (us : List ℕ)
      → mid.key ≡ take cp l.key
      → low.key ≡ drop cp l.key
      → cp < length l.key
      → cached (child c l kids rest) us ≡ true
      → cached (child c mid (child cut low kids more) rest) us ≡ true
  cached-halves c cut cp l mid low kids more rest [] em el h k =
      cached-nil (child c mid (child cut low kids more) rest)
  cached-halves c cut cp l mid low kids more rest (u ∷ us) em el h k =
      elim (Bool-cases (starts l.key (u ∷ us) && cached kids (drop (length l.key) (u ∷ us)))) [
        | inr other ↦
            cached-beside c mid (child cut low kids more) rest (u ∷ us)
              (rw (cached_child c l kids rest u us, other) at k)
        | inl through ↦
            let both : (starts l.key (u ∷ us) ≡ true)
                × (cached kids (drop (length l.key) (u ∷ us)) ≡ true) =
              and_parts _ _ through in
            let halves : (starts (take cp l.key) (u ∷ us) ≡ true)
                × (starts (drop cp l.key) (drop cp (u ∷ us)) ≡ true) =
              and_parts _ _ (rw (starts-split cp l.key (u ∷ us)) at both.0) in
            let upper : length (take cp l.key) ≡ cp = omega (arith, length-take cp l.key) in
            let lower : cp + length (drop cp l.key) ≡ length l.key =
              omega (arith, length-drop cp l.key) in
            cached-step c mid (child cut low kids more) rest (u ∷ us) (rw em halves.0) (
              rw (em, upper)
                (cached-step cut low kids more (drop cp (u ∷ us)) (rw el halves.1)
                  (rw (el, drop-drop cp (length (drop cp l.key)) (u ∷ us), lower) both.1)))
      ]
