-- ===== src/RateLimit/Table/Update.antt =====
-- The client of a key after the client of another key, or its own, has changed.
use gateway_core.Base.{
  ◌≡◌, refl, ◌↔◌, Bool, true, false, List, [], ◌∷◌, some, if◌then◌else◌, arith, Bool-cases, inl,
  inr,
}
use gateway_core.RateLimit.Table.{Client, find_client, update_client, delete_client}

module _ {K : Type 0} (same_key : K → K → Bool)
    (same_key_iff : (j k : K) → (same_key j k ≡ true) ↔ (j ≡ k)) where
  pub update_same :
      (k : K) (c d : Client) (cs : List (K × Client))
      → find_client same_key k cs ≡ some d
      → find_client same_key k (update_client same_key k c cs) ≡ some c
  unfolding find_client update_client
  update_same k c d [] h = cc
  update_same k c d ((j, e) ∷ cs) h =
      let rest = update_same k c d cs in
      elim (Bool-cases (same_key j k)) [ inl e ↦ ground arith | inr e ↦ ground arith ]

  pub update_other :
      (k j : K) (c : Client) (cs : List (K × Client))
      → same_key j k ≡ false
      → find_client same_key k (update_client same_key j c cs) ≡ find_client same_key k cs
  unfolding find_client update_client
  update_other k j c [] h = refl
  update_other k j c ((i, e) ∷ cs) h =
      let rest = update_other k j c cs h in
      let ij = same_key_iff i j in
      let ik = same_key_iff i k in
      let jk = same_key_iff j k in
      elim (Bool-cases (same_key i j)) [ inl e ↦ ground arith | inr e ↦ ground arith ]

  pub delete_other :
      (k j : K) (cs : List (K × Client))
      → same_key j k ≡ false
      → find_client same_key k (delete_client same_key j cs) ≡ find_client same_key k cs
  unfolding find_client delete_client
  delete_other k j [] h = refl
  delete_other k j ((i, e) ∷ cs) h =
      let rest = delete_other k j cs h in
      let ij = same_key_iff i j in
      let ik = same_key_iff i k in
      let jk = same_key_iff j k in
      elim (Bool-cases (same_key i j)) [ inl e ↦ ground arith | inr e ↦ ground arith ]

  pub find_first :
      (k j : K) (c : Client) (cs : List (K × Client))
      → find_client same_key k ((j, c) ∷ cs)
        ≡ (if same_key j k then some c else find_client same_key k cs)
  unfolding find_client
  find_first k j c cs = refl
