-- ===== src/Map/Laws.antt =====
-- What a look-up finds after each operation, with no condition on the table.
use qing_liao_chat_server.Base.{◌≡◌, refl, true, none, some, [], ◌∷◌, arith, if◌then◌else◌}
use qing_liao_chat_server.Map.Defs.{Key, Map, lookup, insert, erase}

pub beq_sym : {K : Type 0} ⦃e : Key K⦄ (a b : K) → e.beq a b ≡ e.beq b a
beq_sym ⦃e⦄ a b = ground (arith, e.beq_subst a b a, e.beq_subst b a b, e.beq_refl a, e.beq_refl b)

module _ {K V : Type 0} ⦃e : Key K⦄ where
  pub lookup-empty : (k : K) → lookup {V = V} k [] ≡ none
  unfolding lookup
  lookup-empty k = refl

  pub lookup-insert :
      (j k : K) (v : V) (m : Map K V)
      → lookup j (insert k v m) ≡ (if e.beq k j then some v else lookup j m)
  unfolding lookup insert
  lookup-insert j k v [] = refl
  lookup-insert j k v ((i, w) ∷ m) =
      ground (
        arith,
        e.beq_subst i k j,
        e.beq_subst k j i,
        beq_sym i j,
        beq_sym i k,
        lookup-insert j k v m,
      )

  pub lookup-erase :
      (j k : K) (m : Map K V) → lookup j (erase k m) ≡ (if e.beq k j then none else lookup j m)
  unfolding lookup erase
  lookup-erase j k [] = ground arith
  lookup-erase j k ((i, w) ∷ m) =
      ground
        (arith, e.beq_subst i k j, e.beq_subst k j i, beq_sym i j, beq_sym i k, lookup-erase j k m)

  -- A look-up does not tell equal keys apart.
  pub lookup_subst : (a b : K) (m : Map K V) → e.beq a b ≡ true → lookup a m ≡ lookup b m
  unfolding lookup
  lookup_subst a b [] h = refl
  lookup_subst a b ((i, w) ∷ m) h =
      ground (arith, e.beq_subst a b i, beq_sym a i, beq_sym b i, lookup_subst a b m)

  -- Storing what is stored already changes nothing.
  pub insert-lookup : (k : K) (v : V) (m : Map K V) → lookup k m ≡ some v → insert k v m ≡ m
  unfolding lookup insert
  insert-lookup k v [] h = absurd (ground (arith, h))
  insert-lookup k v ((i, w) ∷ m) h = ground (arith, h, insert-lookup k v m)
