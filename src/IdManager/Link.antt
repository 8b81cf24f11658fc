-- ===== src/IdManager/Link.antt =====
-- Two maps that are inverse to each other, as the by-AIMP-key and by-plugin-id maps are.
use aimpremote_control.Prelude.{ℕ, ◌≤◌, ◌<◌, ◌≡◌, none, some, arith, EqTest, nat_eq, nat_beq_iff}
use aimpremote_control.Prelude.Dict.{Dict, get, emplace, erase, get-emplace_new, get-erase}
use aimpremote_control.IdManager.{int32_max}

module _ {ℓ} {K : Type ℓ} ⦃e : EqTest K⦄ where
  pub record IsLinked (ids : Dict K ℕ) (keys : Dict ℕ K) : Type ℓ where
    pub id_of : (p : ℕ) (k : K) → get p keys ≡ some k → get k ids ≡ some p
    pub key_of : (k : K) (p : ℕ) → get k ids ≡ some p → get p keys ≡ some k
    pub range : (p : ℕ) (k : K) → get p keys ≡ some k → (0 < p) × (p ≤ int32_max)

  module _ (ids : Dict K ℕ) (keys : Dict ℕ K) (l : IsLinked ids keys) where
    -- A new pair of a key and an id, neither of them used.
    pub IsLinked-emplace :
        (k : K) (p : ℕ)
        → get k ids ≡ none
        → get p keys ≡ none
        → 0 < p
        → p ≤ int32_max
        → IsLinked (emplace k p ids) (emplace p k keys)
    IsLinked-emplace k p new free pos_p small = record {
      id_of = λ q j h. ground (
        arith,
        get-emplace_new k j p ids new,
        get-emplace_new p q k keys free,
        e.beq_iff k j,
        nat_beq_iff p q,
        l.id_of q j,
      );
      key_of = λ j q h. ground (
        arith,
        get-emplace_new k j p ids new,
        get-emplace_new p q k keys free,
        e.beq_iff k j,
        nat_beq_iff p q,
        l.key_of j q,
      );
      range =
          λ q j h. ground (arith, get-emplace_new p q k keys free, nat_beq_iff p q, l.range q j);
    }

    -- A pair that is there leaves both maps.
    pub IsLinked-erase :
        (k : K) (p : ℕ) → get p keys ≡ some k → IsLinked (erase k ids) (erase p keys)
    IsLinked-erase k p there = record {
      id_of = λ q j h. ground (
        arith,
        get-erase k j ids,
        get-erase p q keys,
        e.beq_iff k j,
        nat_beq_iff p q,
        l.id_of q j,
        l.id_of p k there,
      );
      key_of = λ j q h. ground (
        arith,
        get-erase k j ids,
        get-erase p q keys,
        e.beq_iff k j,
        nat_beq_iff p q,
        l.key_of j q,
        l.id_of p k there,
      );
      range = λ q j h. ground (arith, get-erase p q keys, nat_beq_iff p q, l.range q j);
    }
