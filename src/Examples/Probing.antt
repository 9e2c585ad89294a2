-- ===== src/Examples/Probing.antt =====
-- A probe of two ranks that are pointed at each other.
use native.Mathlib.Nat.{mod-lt}
use group_free_collectives.Base.{
  ℕ, ◌+◌, ◌*◌, ◌%◌, ◌<◌, ◌≡◌, ◌≢◌, ◌↔◌, refl, arith, inl, inr, true, some, dec_lt,
}
use group_free_collectives.Kernel.Memory.{run}
use group_free_collectives.Kernel.Strided.{Apart}
use group_free_collectives.Probe.{
  ProbeRank, probe_bytes, pattern, peer_of, all_staged, probe_tma_supported,
}
use group_free_collectives.Probe.Laws.{Reads, probe_tma_supported_iff}
use group_free_collectives.Probe.Wiring.{IsWired, Launches, probe_tma_supported-tells}

abbrev buffer : ℕ → ℕ
buffer rank = 10_000 + rank * 1_000_000

abbrev ring : ℕ → ProbeRank
ring rank = record {
  comm_buf = buffer rank;
  buffer_ptrs = buffer;
  local_probe = 500_000;
  runs = λ cs m. some (run cs m);
}

abbrev next : ℕ → ℕ
next rank = (rank + 1) % 2

apart : (p q : ℕ) → p < 2 → q < 2 → p ≢ q → Apart (buffer p) probe_bytes (buffer q) probe_bytes
apart p q p_lt q_lt off = elim (dec_lt p q) [
  | yes below ↦ inl (omega arith)
  | no above ↦ inr (omega arith)
]

ring-IsWired : IsWired 2 ring next
ring-IsWired = record {
  few = omega arith;
  disjoint = apart;
  holder_lt = λ rank lt. mod-lt (rank + 1) (omega arith);
  at_holder = λ rank lt. refl;
  performs = λ rank cs m. inr refl;
}

probe_tma_supported_iff_example :
    (probe_tma_supported 2 ring (λ a. 0) ≡ true)
    ↔ ((rank : ℕ) → rank < 2 → Reads 2 ring (all_staged 2 ring 2 (λ a. 0)) rank)
probe_tma_supported_iff_example = probe_tma_supported_iff 2 ring (λ a. 0)

probe_tma_supported-tells_example : (probe_tma_supported 2 ring (λ a. 0) ≡ true) ↔ (
    (rank : ℕ)
    → rank < 2
    → Launches 2 ring next ring-IsWired (λ a. 0) rank × (next rank ≡ peer_of 2 ring rank))
probe_tma_supported-tells_example = probe_tma_supported-tells 2 ring next ring-IsWired (λ a. 0)

probed : probe_tma_supported 2 ring (λ a. 0) ≡ true
probed = probe_tma_supported-tells_example.1 (λ rank lt. ((λ e. cc), refl))

pattern_values : (pattern 0 0 ≡ 131) × (pattern 1 0 ≡ 6) × (pattern 1 4095 ≡ 245)
unfolding pattern
pattern_values = (refl, refl, refl)
