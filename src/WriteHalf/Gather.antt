-- ===== src/WriteHalf/Gather.antt =====
-- The chunk that a write of src/migrating_write_half.rs takes from its slices.
use mathlib.Core.List.{append-nil, append_assoc}
use rtp_mux.Prelude.{
  ℕ, ◌+◌, ◌-◌, ◌^◌, ◌≡◌, refl, inl, inr, List, [], ◌∷◌, ◌++◌, min, eqb, length, take, concat,
  length-append, length-take, take-append, take-min-length, Bool-cases, arith, eqb_iff, zero, suc,
}
use rtp_mux.WriteHalf.{total_len, chunk_of, gather}

take-nil : (n : ℕ) → take {A = ℕ} n [] ≡ []
take-nil zero = refl
take-nil (suc n) = refl

taken :
    (chunk : ℕ) (copied buf : List ℕ)
    → chunk - length (copied ++ take (chunk - length copied) buf)
      ≡ (chunk - length copied) - length buf
taken chunk copied buf = omega (
  arith,
  length-append copied (take (chunk - length copied) buf),
  length-take (chunk - length copied) buf,
)

pub gather_lem :
    (chunk : ℕ) (copied : List ℕ) (bufs : List (List ℕ))
    → gather chunk copied bufs ≡ copied ++ take (chunk - length copied) (concat bufs)
unfolding gather
gather_lem chunk copied [] = rw (take-nil (chunk - length copied), append-nil copied) refl
gather_lem chunk copied (buf ∷ bufs) = elim (Bool-cases (eqb (chunk - length copied) 0)) [
  | inl full ↦ rw (full, (eqb_iff (chunk - length copied) 0).0 full, append-nil copied) refl
  | inr space ↦
      rw
        (
          space,
          take-min-length (chunk - length copied) buf,
          gather_lem chunk (copied ++ take (chunk - length copied) buf) bufs,
          taken chunk copied buf,
          take-append (chunk - length copied) buf (concat bufs),
          append_assoc copied (take (chunk - length copied) buf)
              (take ((chunk - length copied) - length buf) (concat bufs)),
        )
        refl
]

total_len_lem :
    (n : ℕ) (bufs : List (List ℕ))
    → min (total_len n bufs) 65536 ≡ min (n + length (concat bufs)) 65536
unfolding total_len
total_len_lem n [] = omega arith
total_len_lem n (buf ∷ bufs) =
    omega (
      arith,
      total_len_lem (min (n + length buf) (2 ^ 64 - 1)) bufs,
      length-append buf (concat bufs),
    )

-- The chunk is as long as all slices together, and at most 64 KiB.
pub chunk_of_lem : (bufs : List (List ℕ)) → chunk_of bufs ≡ min (length (concat bufs)) 65536
unfolding chunk_of
chunk_of_lem bufs = omega (arith, total_len_lem 0 bufs)
