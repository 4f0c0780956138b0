-- ===== src/Cluster/Rendezvous/Owner.antt =====
-- Who owns a key, and how little a departure moves.
use magnitude.Common.{
  ℕ, length, ◌≤◌, ◌≡◌, ◌≢◌, ◌⊎◌, inl, inr, refl, sym, ap, ◌∙◌, true, false, ◌||◌, String, List, [],
  ◌∷◌, ltb, ◌==◌, string_keyed, if◌then◌else◌, arith, Bool-cases,
}
use text.Mathlib.TextEquality.{eq_iff}
use magnitude.Common.Keys.{has, erase}
use magnitude.Cluster.Rendezvous.{RendezvousRouter, remove_node, contest, contests, route}

module _ (weight : String → String → ℕ) (key : String) where
  contest_kept :
      (best : ℕ × String) (node : String)
      → (best.1 == "") ≡ false
      → ltb best.0 (weight node key) ≡ false
      → contest weight key best node ≡ best
  unfolding contest
  contest_kept best node named lighter = ground arith

  contest_taken :
      (best : ℕ × String) (node : String)
      → ltb best.0 (weight node key) ≡ true
      → contest weight key best node ≡ (weight node key, node)
  unfolding contest
  contest_taken best node heavier = ground arith

  contest-le :
      (best : ℕ × String) (node : String) (top : ℕ)
      → best.0 ≤ top
      → ltb top (weight node key) ≡ false
      → (contest weight key best node).0 ≤ top
  unfolding contest
  contest-le best node top le lighter = ground arith

  -- A leader is overtaken, or keeps the lead; if overtaken, whom it had overtaken does not matter.
  overtaken :
      (top : ℕ × String) (best : ℕ × String) (rest : List String)
      → (top.1 == "") ≡ false
      → best.0 ≤ top.0
      → (contests weight key top rest ≡ top)
        ⊎ (contests weight key top rest ≡ contests weight key best rest)
  unfolding contests
  overtaken top best [] named le = inl refl
  overtaken top best (node ∷ rest) named le = elim (Bool-cases (ltb top.0 (weight node key))) [
    | inl heavier ↦ inr (
        ap (λ b. contests weight key b rest)
          (contest_taken top node heavier
            ∙ sym (contest_taken best node (ground (arith, heavier)))))
    | inr lighter ↦ rw (contest_kept top node named lighter) (
        overtaken top (contest weight key best node) rest named
          (contest-le best node top.0 le lighter))
  ]

  -- The best so far has its own weight, or there is none yet.
  abbrev Sound : ℕ × String → Type 0
  Sound best = best.0 ≡ (if best.1 == "" then 0 else weight best.1 key)

  contest-Sound :
      (best : ℕ × String) (node : String)
      → Sound best
      → (node == "") ≡ false
      → Sound (contest weight key best node)
  unfolding contest
  contest-Sound best node v named =
      elim (Bool-cases (ltb best.0 (weight node key) || best.1 == "")) [
        | inl taken ↦ rw taken (ground (arith, named))
        | inr kept ↦ rw kept v
      ]

  contest-best :
      (best : ℕ × String) (node : String)
      → Sound best
      → (best.0 ≤ (contest weight key best node).0)
        × (weight node key ≤ (contest weight key best node).0)
        × ((contest weight key best node ≡ (weight node key, node))
            ⊎ (contest weight key best node ≡ best))
  unfolding contest
  contest-best best node v = elim (Bool-cases (ltb best.0 (weight node key) || best.1 == "")) [
    | inl taken ↦ rw taken (ground (arith, v), omega arith, inl refl)
    | inr kept ↦ rw kept (omega arith, ground arith, inr refl)
  ]

  route-contests :
      (r : RendezvousRouter) → route weight r key ≡ (contests weight key (0, "") r.nodes).1
  unfolding route contests
  route-contests r = from r.nodes
    where
      from :
          (ns : List String)
          → (elim ns as (λ x. String) [
            | [] ↦ ""
            | node ∷ rest ↦ (contests weight key (0, "") (node ∷ rest)).1
          ])
            ≡ (contests weight key (0, "") ns).1
      from [] = refl
      from (n ∷ ns) = refl

  -- The winner of the contests is one of the nodes or the best before them, and no node outweighs it.
  contests-best :
      (best : ℕ × String) (rest : List String)
      → Sound best
      → has "" rest ≡ false
      → let won = contests weight key best rest in
        Sound won
        × (best.0 ≤ won.0)
        × ((has won.1 rest ≡ true) ⊎ (won ≡ best))
        × ((j : String) → has j rest ≡ true → weight j key ≤ won.0)
  unfolding contests has
  contests-best best [] v named = (v, omega arith, inr refl, λ j e. cc)
  contests-best best (node ∷ rest) v named =
      let next = contest weight key best node in
      let fresh : (node == "") ≡ false = ground (arith, named) in
      let (above, heavy, from) = contest-best best node v in
      let (sound, le, origin, most) =
        contests-best next rest (contest-Sound best node v fresh) (ground (arith, named)) in
      (
        sound,
        omega arith,
        ground (arith, origin, from, eq_iff node (contests weight key next rest).1),
        λ j e. elim (Bool-cases (node == j)) [
          | inl same ↦ ground (arith, eq_iff node j, heavy, le)
          | inr other ↦ most j (ground (arith, e, other))
        ],
      )

  erased :
      (best : ℕ × String) (id : String) (nodes : List String)
      → Sound best
      → has "" nodes ≡ false
      → (id == (contests weight key best nodes).1) ≡ false
      → contests weight key best (erase id nodes) ≡ contests weight key best nodes
  unfolding contests erase has
  erased best id [] v named lost = refl
  erased best id (node ∷ rest) v named lost =
      let fresh : (node == "") ≡ false = ground (arith, named) in
      let (above, heavy, from) = contest-best best node v in
      elim (Bool-cases (node == id)) [
        | inl gone ↦ rw gone (elim from [
          | inr kept ↦ ap (λ b. contests weight key b rest) (sym kept)
          | inl taken ↦
              elim (overtaken (weight node key, node) best rest fresh
                (ground (arith, above, taken))) [
                  | inl leads ↦
                      absurd (ground (arith, lost, leads, taken, eq_iff node id, eq_iff id node))
                  | inr same ↦ sym same ∙ ap (λ b. contests weight key b rest) (sym taken)
                ]
        ])
        | inr stays ↦ rw stays (
            erased (contest weight key best node) id rest (contest-Sound best node v fresh)
              (ground (arith, named)) lost)
      ]

  contest-named :
      (best : ℕ × String) (node : String)
      → (node == "") ≡ false
      → ((contest weight key best node).1 == "") ≡ false
  unfolding contest
  contest-named best node named = elim (Bool-cases (ltb best.0 (weight node key) || best.1 == "")) [
    | inl taken ↦ rw taken named
    | inr kept ↦ rw kept (ground (arith, kept))
  ]

  contests-named :
      (best : ℕ × String) (rest : List String)
      → (best.1 == "") ≡ false
      → has "" rest ≡ false
      → ((contests weight key best rest).1 == "") ≡ false
  unfolding contests has
  contests-named best [] b named = b
  contests-named best (node ∷ rest) b named =
      contests-named (contest weight key best node) rest
        (contest-named best node (ground (arith, named))) (ground (arith, named))

  winner_named :
      (nodes : List String)
      → has "" nodes ≡ false
      → length nodes ≢ 0
      → ((contests weight key (0, "") nodes).1 == "") ≡ false
  unfolding contests has
  winner_named [] named nonempty = absurd (nonempty refl)
  winner_named (node ∷ rest) named nonempty =
      contests-named (contest weight key (0, "") node) rest
        (contest-named (0, "") node (ground (arith, named))) (ground (arith, named))

  -- If no node has the empty name and the pool is not empty, the owner of a key is in the pool, and
  -- no node of the pool has a higher weight.
  pub route_heaviest :
      (r : RendezvousRouter)
      → has "" r.nodes ≡ false
      → length r.nodes ≢ 0
      → (has (route weight r key) r.nodes ≡ true)
        × ((j : String) → has j r.nodes ≡ true → weight j key ≤ weight (route weight r key) key)
  route_heaviest r named nonempty =
      let (sound, le, origin, most) = contests-best (0, "") r.nodes refl named in
      let won = contests weight key (0, "") r.nodes in
      let owned = winner_named r.nodes named nonempty in
      rw (route-contests r) (
        elim origin [
          | inl there ↦ there
          | inr empty ↦ absurd (ground (arith, owned, ap (λ b. b.1) empty, eq_iff won.1 ""))
        ],
        λ j e. ground (arith, most j e, sound, owned),
      )

  -- If no node has the empty name, the departure of a node moves no key that it does not own.
  pub departure_moves_own_keys :
      (r : RendezvousRouter) (id : String)
      → has "" r.nodes ≡ false
      → (id == route weight r key) ≡ false
      → route weight (remove_node r id) key ≡ route weight r key
  unfolding remove_node
  departure_moves_own_keys r id named lost =
      route-contests (remove_node r id)
      ∙ ap (λ b. b.1)
          (erased (0, "") id r.nodes refl named (ap (λ o. id == o) (sym (route-contests r)) ∙ lost))
      ∙ sym (route-contests r)
