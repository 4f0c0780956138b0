-- ===== src/Migration/Plans.antt =====
-- internal/migration/trigger.go: which collections move when a node is dead, and where to.
use magnitude.Common.{
  ℕ, ◌≡◌, ◌≢◌, ◌⊎◌, refl, sym, ap, subst, same_refl, ◌∙◌, Bool, true, false, not, ◌&&◌, ◌||◌,
  String, none, some, List, [], ◌∷◌, length, ◌==◌, nat_keyed, string_keyed, if◌then◌else◌, arith,
  Bool-cases, inl, inr,
}
use magnitude.Common.Dict
use magnitude.Common.Dict.{Dict}
use magnitude.Common.Keys.{has}
use text.Mathlib.TextEquality.{eq_iff}
use magnitude.Cluster.Ring.{HashRing, flag, is_member, removal_panics, remove_node, get_node}
use magnitude.Cluster.Ring.Owners.{IsLinked}
use magnitude.Cluster.Ring.Removal.{remove_node-IsLinked, remove_node-is_member}
use magnitude.Cluster.Ring.Routing.{get_node-is_member}
use magnitude.Migration.{MigrationPlan, owned_by_dead, removal_plans, trigger_on_node_removal}

-- A plan to move this collection from one node to the other.
unfoldable pub planned : String → String → String → List MigrationPlan → Bool
planned col from to [] = false
planned col from to (p ∷ ps) =
    (p.collection_id == col && (p.source_node == from && p.target_node == to))
    || planned col from to ps

skipped : {p : Bool} (x h f : Bool) → p ≡ (h && f) → (x ≡ true → f ≡ false) → p ≡ ((x || h) && f)
skipped x i f e h = ground (arith, e, h)

taken :
    {p d : Bool} (x h f g n : Bool)
    → p ≡ (h && (f && n))
    → d ≡ true
    → (x ≡ true → f ≡ true)
    → (x ≡ true → n ≡ g)
    → ((x && (d && g)) || p) ≡ ((x || h) && (f && n))
taken x i f g n e d h k = ground (arith, e, d, h, k)

and_false : (b : Bool) → (b && false) ≡ false
and_false b = ground arith

no_target : (node to : String) → (node == "") ≡ true → (node == to && not (to == "")) ≡ false
no_target node to h = ground (arith, h, eq_iff node "", eq_iff node to, eq_iff to "")

target_there :
    (node to : String) → (node == "") ≡ false → (node == to) ≡ (node == to && not (to == ""))
target_there node to h = ground (arith, h, eq_iff node "", eq_iff node to, eq_iff to "")

module _ (sum32 : String → ℕ) where
  same_node :
      (ring : HashRing) (c col : String) → c ≡ col → get_node sum32 ring c ≡ get_node sum32 ring col
  same_node ring c col e = ap (get_node sum32 ring) e

  same_entry :
      (owned : Dict String Bool) (c col : String)
      → c ≡ col
      → Dict.lookup c owned ≡ Dict.lookup col owned
  same_entry owned c col e = ap (λ i. Dict.lookup i owned) e

  owned_by_dead_lem :
      (ring : HashRing) (dead col : String) (cols : List String) (owned : Dict String Bool)
      → flag (Dict.lookup col (owned_by_dead sum32 ring dead cols owned))
        ≡ (flag (Dict.lookup col owned) || (has col cols && get_node sum32 ring col == dead))
  unfolding owned_by_dead has
  owned_by_dead_lem ring dead col [] owned = ground arith
  owned_by_dead_lem ring dead col (c ∷ cols) owned =
      let here = get_node sum32 ring c == dead in
      owned_by_dead_lem ring dead col cols (if here then Dict.insert c true owned else owned)
      ∙ ground (arith, Dict.lookup-insert c col true owned, eq_iff c col, same_node ring c col)

  removal_plans_lem :
      (ring : HashRing) (dead col to : String) (owned : Dict String Bool) (cols : List String)
      → planned col dead to (removal_plans sum32 ring dead owned cols) ≡ (
          has col cols
          && (flag (Dict.lookup col owned) && (get_node sum32 ring col == to && not (to == ""))))
  unfolding removal_plans planned has
  removal_plans_lem ring dead col to owned [] = refl
  removal_plans_lem ring dead col to owned (c ∷ cols) =
      let further = removal_plans_lem ring dead col to owned cols in
      let primary = get_node sum32 ring c in
      let aimed = get_node sum32 ring col == to && not (to == "") in
      let entry = λ (e : c ≡ col). ap (λ i. flag (Dict.lookup i owned)) e in
      let place = λ (e : c ≡ col). ap (λ i. get_node sum32 ring i) e in
      elim (Bool-cases (flag (Dict.lookup c owned))) [
        | inr spared ↦ rw spared (
            skipped (c == col) (has col cols) (flag (Dict.lookup col owned) && aimed) further (λ x.
              ap (λ b. b && (get_node sum32 ring col == to && not (to == "")))
                (sym (entry ((eq_iff c col).0 x)) ∙ spared)))
        | inl lost ↦ elim (Bool-cases (primary == "")) [
          | inl bare ↦
              rw (lost, bare)
                (skipped (c == col) (has col cols) (flag (Dict.lookup col owned) && aimed) further
                  (λ x.
                    ap (λ b. flag (Dict.lookup col owned) && b)
                      (no_target (get_node sum32 ring col) to
                        (sym (ap (λ s. s == "") (place ((eq_iff c col).0 x))) ∙ bare))
                    ∙ and_false (flag (Dict.lookup col owned))))
          | inr there ↦
              rw (lost, there)
                (taken (c == col) (has col cols) (flag (Dict.lookup col owned)) (primary == to)
                  aimed further (same_refl dead) (λ x. sym (entry ((eq_iff c col).0 x)) ∙ lost)
                  (λ x.
                    sym (
                      target_there (get_node sum32 ring col) to
                        (sym (ap (λ s. s == "") (place ((eq_iff c col).0 x))) ∙ there))
                    ∙ sym (ap (λ s. s == to) (place ((eq_iff c col).0 x)))))
        ]
      ]

  primary-is_member :
      (ring : HashRing) (col to : String)
      → IsLinked ring
      → (get_node sum32 ring col == to) ≡ true
      → (to == "") ≡ false
      → is_member ring to ≡ true
  unfolding get_node
  primary-is_member ring col to v e named = elim (Bool-cases (length ring.ring == 0)) [
    | inl bare ↦ absurd (ground (arith, bare, e, named, eq_iff "" to, eq_iff to ""))
    | inr filled ↦
        let same = (eq_iff (get_node sum32 ring col) to).0 e in
        subst (λ id. is_member ring id ≡ true) same
          (get_node-is_member sum32 ring col v (ground (arith, filled)))
  ]

  removal_lem :
      (ring : HashRing) (dead : String) (cols : List String)
      → (dead == "") ≡ false
      → removal_panics ring dead ≡ false
      → trigger_on_node_removal sum32 (some ring) dead cols
        ≡ some (
          some (remove_node ring dead),
          removal_plans sum32
              (remove_node ring dead)
              dead
              (owned_by_dead sum32 ring dead cols [])
              cols,
        )
  unfolding trigger_on_node_removal
  removal_lem ring dead cols named calm = rw (trigger_on_node_removal, named, calm) refl

  panic_lem :
      (ring : HashRing) (dead : String) (cols : List String)
      → (dead == "") ≡ false
      → removal_panics ring dead ≡ true
      → trigger_on_node_removal sum32 (some ring) dead cols ≡ none
  unfolding trigger_on_node_removal
  panic_lem ring dead cols named panics = rw (trigger_on_node_removal, named, panics) refl

  -- Which plans there are, of a collection and a target.
  exact_lem :
      (ring : HashRing) (dead : String) (cols : List String) (col to : String)
      → planned col dead to (
          removal_plans sum32
            (remove_node ring dead)
            dead
            (owned_by_dead sum32 ring dead cols [])
            cols)
        ≡ (has col cols
            && (get_node sum32 ring col == dead
                && (get_node sum32 (remove_node ring dead) col == to && not (to == ""))))
  unfolding Dict.lookup
  exact_lem ring dead cols col to =
      let owned = owned_by_dead sum32 ring dead cols [] in
      removal_plans_lem (remove_node ring dead) dead col to owned cols
      ∙ ground (arith, owned_by_dead_lem ring dead col cols [])

  -- When a node that is not the empty name is dead, on a linked ring: either its removal panics, and so
  -- does the call, or the call gives the ring without the node and the plans. The plans move just those
  -- of the given collections that the node was the primary of, each from it to the primary on the ring
  -- without it, unless that ring has none; and a target is another node, a member of the ring.
  pub plans_exact :
      (ring : HashRing) (dead : String) (cols : List String)
      → IsLinked ring
      → dead ≢ ""
      → ((removal_panics ring dead ≡ true)
          × (trigger_on_node_removal sum32 (some ring) dead cols ≡ none))
        ⊎ ((plans : List MigrationPlan) × (removal_panics ring dead ≡ false)
            × (trigger_on_node_removal sum32 (some ring) dead cols
                ≡ some (some (remove_node ring dead), plans))
            × ((col to : String)
                → planned col dead to plans ≡ (
                    has col cols
                    && (get_node sum32 ring col == dead
                        && (get_node sum32 (remove_node ring dead) col == to && not (to == "")))))
            × ((col to : String)
                → (planned col dead to plans && (to == dead || not (is_member ring to))) ≡ false))
  plans_exact ring dead cols v named = elim (Bool-cases (removal_panics ring dead)) [
    | inl panics ↦
        inl (panics, panic_lem ring dead cols (ground (arith, named, eq_iff dead "")) panics)
    | inr calm ↦
        let left = remove_node ring dead in
        inr (
          removal_plans sum32 left dead (owned_by_dead sum32 ring dead cols []) cols,
          calm,
          removal_lem ring dead cols (ground (arith, named, eq_iff dead "")) calm,
          exact_lem ring dead cols,
          λ col to. ground (
            arith,
            exact_lem ring dead cols col to,
            primary-is_member left col to (remove_node-IsLinked ring dead v),
            remove_node-is_member ring dead to,
            eq_iff dead to,
            eq_iff to dead,
          ),
        )
  ]
