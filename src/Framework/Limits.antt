-- ===== src/Framework/Limits.antt =====
-- The limit of a state and the limits on padding, crates/maybenot/src/framework.rs.
use maybenot_simv.Base.{ℕ, ◌≤◌, true, false, ◌≡◌, ◌≢◌, ◌⊎◌, ◌↔◌, arith}
use maybenot_simv.Platform.{Platform, zero64}
use maybenot_simv.Machine.{Machine}
use maybenot_simv.Framework.{Core, MachineRuntime, ◌+u64◌, hits, below_limit_padding}

module _ {F64 F32 Rng : Type 0} (pl : Platform F64 F32 Rng) where
  -- A fraction is set, and the packets that were counted sum to zero as `u64`.
  abbrev pub CountsNone : F64 → ℕ → Type 0
  CountsNone frac total = (pl.lt (zero64 pl) frac ≡ true) × (total ≡ 0)

  -- No fraction is set, or packets were counted and the padding among them is below the fraction.
  abbrev pub IsBelow : F64 → ℕ → ℕ → Type 0
  IsBelow frac padding total =
      (pl.lt (zero64 pl) frac ≡ false) ⊎ ((total ≢ 0) × (hits pl padding total frac ≡ false))

  -- When the limit of the state is used up, padding is still below its limits exactly if the machine
  -- has used its allowed padding and either the machine's fraction is set and its counts of packets
  -- sum to zero, as `u64`; or the machine is below its fraction, where it is set, and the fraction of
  -- the framework is set and the framework's counts of packets sum to zero, as `u64`.
  pub below_limit_padding_used :
      (c : Core F64 Rng) (r : MachineRuntime) (m : Machine F64 F32)
      → r.state_limit ≡ 0
      → (below_limit_padding pl c r m ≡ true) ↔ (
          (m.allowed_padding_packets ≤ r.padding_sent)
          × (CountsNone m.max_padding_frac (r.normal_sent +u64 r.padding_sent)
              ⊎ (IsBelow m.max_padding_frac r.padding_sent (r.normal_sent +u64 r.padding_sent)
                  × CountsNone c.max_padding_frac
                      (c.padding_sent_packets +u64 c.normal_sent_packets))))
  unfolding below_limit_padding
  below_limit_padding_used c r m h = (λ k. ground arith, λ k. ground arith)
