-- ===== src/Hget/Connect/Among.antt =====
-- The candidates of `tcp_connect` of board/hget/hget.c are addresses that `getaddrinfo` returned.
use esp32_p4_linux.Common.{
  ℕ, zero, suc, inl, inr, List, [], ◌∷◌, ltb, length, get_elem?, All, All-append, Bool-cases,
  Option-cases,
}
use esp32_p4_linux.Hget.Connect.{max_addrs, Addr, add, split_families, pick, interleave, candidates}
use esp32_p4_linux.Hget.Connect.Select.{All-get_elem?}

module _ {κ} (P : Addr → Type κ) where
  add-All : (fam : List Addr) (a : Addr) → P a → All P fam → All P (add fam a)
  unfolding add
  add-All fam a pa h = elim (Bool-cases (ltb (length fam) max_addrs)) [
    | inl room ↦ rw room (All-append P fam (a ∷ []) h (pa, tt))
    | inr full ↦ rw full h
  ]

  split_families-All :
      (res six four : List Addr)
      → All P res
      → All P six
      → All P four
      → All P (split_families res six four).0 × All P (split_families res six four).1
  unfolding split_families
  split_families-All [] six four r h k = (h, k)
  split_families-All (a ∷ res) six four r h k = elim (Bool-cases a.inet6) [
    | inl e ↦
        rw (e, split_families) (split_families-All res (add six a) four r.1 (add-All six a r.0 h) k)
    | inr e ↦
        rw (e, split_families)
          (split_families-All res six (add four a) r.1 h (add-All four a r.0 k))
  ]

  pick-All :
      (fam : List Addr) (slot : ℕ) (sel : List Addr)
      → All P fam
      → All P sel
      → All P (pick fam slot sel)
  unfolding pick
  pick-All fam slot sel h s = elim (Bool-cases (ltb (length sel) max_addrs)) [
    | inr full ↦ rw (full, pick) s
    | inl room ↦ elim (Option-cases (get_elem? fam slot)) [
      | inl over ↦ rw (room, pick, over, pick) s
      | inr (a, got) ↦
          rw (room, pick, got, pick)
            (All-append P sel (a ∷ []) s (All-get_elem? P fam slot h got, tt))
    ]
  ]

  interleave-All :
      (n slot : ℕ) (six four sel : List Addr)
      → All P six
      → All P four
      → All P sel
      → All P (interleave n slot six four sel)
  unfolding interleave
  interleave-All zero slot six four sel h k s = s
  interleave-All (suc n) slot six four sel h k s =
      interleave-All n (suc slot) six four _ h k
        (pick-All four slot (pick six slot sel) k (pick-All six slot sel h s))

  -- Whatever holds of all the addresses that the name resolves to holds of all that are tried.
  pub candidates-All : (res : List Addr) → All P res → All P (candidates res)
  unfolding candidates
  candidates-All res r =
      let (six, four) = split_families-All res [] [] r tt tt in
      interleave-All max_addrs 0 _ _ [] six four tt
