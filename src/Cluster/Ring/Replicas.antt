-- ===== src/Cluster/Ring/Replicas.antt =====
-- The walk for the replicas of a key.
use magnitude.Common.{
  ℕ, zero, suc, ◌+◌, ◌<◌, ◌≤◌, ◌≡◌, ◌≢◌, ◌⊎◌, refl, true, false, String, some, List, [], ◌∷◌, ◌++◌,
  length, get_elem?, take, drop, leb, nat_keyed, string_keyed, if◌then◌else◌, arith, Bool-cases,
  inl, inr, get_elem?_total, nat_beq_iff, length-append,
}
use text.Mathlib.TextEquality.{eq_iff}
use magnitude.Common.Keys.{has, IsOnce, has-append, append-IsOnce}
use magnitude.Cluster.Ring.{HashRing, is_member, owner_at, start_index, walk, get_node, get_nodes}
use magnitude.Cluster.Ring.Owners.{IsLinked}
use magnitude.Cluster.Ring.Routing.{start_index-lt, owner-is_member}

-- The result of `walk` after one more position.
abbrev grown : HashRing → ℕ → List String → List String
grown h pos result = if has (owner_at h pos) result then result else result ++ owner_at h pos ∷ []

grown-IsOnce :
    (h : HashRing) (pos : ℕ) (result : List String) → IsOnce result → IsOnce (grown h pos result)
grown-IsOnce h pos result once = elim (Bool-cases (has (owner_at h pos) result)) [
  | inl old ↦ rw old once
  | inr unseen ↦ rw unseen (append-IsOnce (owner_at h pos) result unseen once)
]

length-grown :
    (h : HashRing) (pos : ℕ) (result : List String)
    → length (grown h pos result) ≤ length result + 1
length-grown h pos result = ground (arith, length-append {0} result (owner_at h pos ∷ []))

has-grown :
    (h : HashRing) (pos : ℕ) (result : List String) (j : String)
    → has j (grown h pos result) ≡ true
    → (has j result ≡ true) ⊎ (j ≡ owner_at h pos)
unfolding has
has-grown h pos result j e =
    ground (arith, has-append j result (owner_at h pos ∷ []), eq_iff (owner_at h pos) j)

walk-IsOnce :
    (h : HashRing) (n : ℕ) (ps : List ℕ) (result : List String)
    → IsOnce result
    → IsOnce (walk h n ps result)
unfolding walk
walk-IsOnce h n [] result once = once
walk-IsOnce h n (pos ∷ rest) result once = elim (Bool-cases (leb n (length result))) [
  | inl full ↦ rw full once
  | inr more ↦ rw more (walk-IsOnce h n rest (grown h pos result) (grown-IsOnce h pos result once))
]

length-walk :
    (h : HashRing) (n : ℕ) (ps : List ℕ) (result : List String)
    → length result ≤ n
    → length (walk h n ps result) ≤ n
unfolding walk
length-walk h n [] result fits = fits
length-walk h n (pos ∷ rest) result fits = elim (Bool-cases (leb n (length result))) [
  | inl full ↦ rw full fits
  | inr more ↦
      rw more
        (length-walk h n rest (grown h pos result) (ground (arith, length-grown h pos result)))
]

-- Every node of the result is a member, if the result had members and the positions are on the ring.
walk-is_member :
    (h : HashRing) (n : ℕ) (ps : List ℕ) (result : List String)
    → ((pos : ℕ) → has pos ps ≡ true → is_member h (owner_at h pos) ≡ true)
    → ((j : String) → has j result ≡ true → is_member h j ≡ true)
    → (j : String) → has j (walk h n ps result) ≡ true
    → is_member h j ≡ true
unfolding walk has
walk-is_member h n [] result on good j e = good j e
walk-is_member h n (pos ∷ rest) result on good j e = elim (Bool-cases (leb n (length result))) [
  | inl full ↦ good j (rw full at e)
  | inr more ↦
      walk-is_member h n rest (grown h pos result) (λ p q. on p (ground (arith)))
        (λ k f. elim (has-grown h pos result k f) [
          | inl old ↦ good k old
          | inr here ↦ rw here (on pos (ground (arith, nat_beq_iff pos pos)))
        ])
        j (rw more at e)
]

-- `walk` keeps the beginning of its result.
walk-head :
    (h : HashRing) (n : ℕ) (ps : List ℕ) (first : String) (result : List String)
    → (tail : List String) × (walk h n ps (first ∷ result) ≡ first ∷ tail)
unfolding walk
walk-head h n [] first result = (result, refl)
walk-head h n (pos ∷ rest) first result = elim (Bool-cases (leb n (length (first ∷ result)))) [
  | inl full ↦ rw full (result, refl)
  | inr more ↦ rw more (elim (Bool-cases (has (owner_at h pos) (first ∷ result))) [
    | inl old ↦ rw old (walk-head h n rest first result)
    | inr unseen ↦ rw unseen (walk-head h n rest first (result ++ owner_at h pos ∷ []))
  ])
]

drop-get_elem? :
    (l : List ℕ) (i : ℕ) {p : ℕ} → get_elem? l i ≡ some p → drop i l ≡ p ∷ drop (suc i) l
drop-get_elem? [] i e = absurd (ground arith)
drop-get_elem? (x ∷ xs) zero e = ground arith
drop-get_elem? (x ∷ xs) (suc i) e = drop-get_elem? xs i e

has-drop : (pos i : ℕ) (l : List ℕ) → has pos (drop i l) ≡ true → has pos l ≡ true
unfolding has
has-drop pos zero l e = e
has-drop pos (suc i) [] e = e
has-drop pos (suc i) (x ∷ xs) e = ground (arith, has-drop pos i xs e)

has-take : (pos i : ℕ) (l : List ℕ) → has pos (take i l) ≡ true → has pos l ≡ true
unfolding has
has-take pos zero l e = absurd (ground arith)
has-take pos (suc i) [] e = e
has-take pos (suc i) (x ∷ xs) e = ground (arith, has-take pos i xs)

has_nil : (j : String) → has j [] ≡ false
unfolding has
has_nil j = refl

get_nodes-walk :
    (sum32 : String → ℕ) (h : HashRing) (key : String) (n : ℕ)
    → length h.ring ≢ 0
    → 0 < n
    → get_nodes sum32 h key n
      ≡ walk h n
          (drop (start_index (sum32 key) h.ring) h.ring
            ++ take (start_index (sum32 key) h.ring) h.ring)
          []
unfolding get_nodes
get_nodes-walk sum32 h key n nonempty pos = ground arith

walk-first :
    (h : HashRing) (n pos : ℕ) (rest : List ℕ)
    → 0 < n
    → walk h n (pos ∷ rest) [] ≡ walk h n rest (owner_at h pos ∷ [])
unfolding walk has
walk-first h n pos rest positive = ground arith

get_node-owner_at :
    (sum32 : String → ℕ) (h : HashRing) (key : String) (pos : ℕ)
    → length h.ring ≢ 0
    → get_elem? h.ring (start_index (sum32 key) h.ring) ≡ some pos
    → get_node sum32 h key ≡ owner_at h pos
unfolding get_node
get_node-owner_at sum32 h key pos nonempty at = ground arith

-- The walk begins with the owner of the key.
walk-get_node :
    (sum32 : String → ℕ) (h : HashRing) (key : String) (n : ℕ)
    → length h.ring ≢ 0
    → 0 < n
    → let idx = start_index (sum32 key) h.ring in
      (tail : List String) × (walk h n (drop idx h.ring ++ take idx h.ring) []
        ≡ get_node sum32 h key ∷ tail)
walk-get_node sum32 h key n nonempty positive =
    let idx = start_index (sum32 key) h.ring in
    let (pos, at) = get_elem?_total h.ring idx (start_index-lt (sum32 key) h.ring nonempty) in
    let (tail, e) = walk-head h n (drop (suc idx) h.ring ++ take idx h.ring) (owner_at h pos) [] in
    (
      tail,
      rw
          (
            drop-get_elem? h.ring idx at,
            walk-first h n pos (drop (suc idx) h.ring ++ take idx h.ring) positive,
            get_node-owner_at sum32 h key pos nonempty at,
          )
          e,
    )

has-rotated : (pos i : ℕ) (l : List ℕ) → has pos (drop i l ++ take i l) ≡ true → has pos l ≡ true
has-rotated pos i l e =
    ground (arith, has-append pos (drop i l) (take i l), has-drop pos i l, has-take pos i l)

-- For a positive number of replicas on a non-empty ring that is linked: the replicas of a key are
-- different members, no more than asked for, and the first is the node that owns the key.
pub get_nodes_replicas :
    (sum32 : String → ℕ) (h : HashRing) (key : String) (n : ℕ)
    → IsLinked h
    → length h.ring ≢ 0
    → 0 < n
    → IsOnce (get_nodes sum32 h key n)
      × (length (get_nodes sum32 h key n) ≤ n)
      × ((j : String) → has j (get_nodes sum32 h key n) ≡ true → is_member h j ≡ true)
      × ((tail : List String) × (get_nodes sum32 h key n ≡ get_node sum32 h key ∷ tail))
get_nodes_replicas sum32 h key n v nonempty pos =
    let idx = start_index (sum32 key) h.ring in
    rw (get_nodes-walk sum32 h key n nonempty pos) (
      walk-IsOnce h n (drop idx h.ring ++ take idx h.ring) [] tt,
      length-walk h n (drop idx h.ring ++ take idx h.ring) [] (omega arith),
      walk-is_member h n (drop idx h.ring ++ take idx h.ring) []
          (λ p on. owner-is_member h p v (has-rotated p idx h.ring on)) (λ j e. cc (has_nil j)),
      walk-get_node sum32 h key n nonempty pos,
    )
