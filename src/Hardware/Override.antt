-- ===== src/Hardware/Override.antt =====
-- The figures that an operator sets for a node.
use infer_platform.Base.{
  ℕ, zero, suc, ◌+◌, ◌*◌, ◌/◌, ◌%◌, ◌^◌, ◌<◌, ◌≡◌, refl, sym, ap, ◌∙◌, ◌==◌, ltb, true, false, List,
  [], ◌∷◌, Option, some, Text, codes, decimal, digits_before, arith, Bool-cases, inl, inr,
}
use infer_platform.Hardware.{
  is_digit, digits_value, parse_u64, both, overridden, or_probed, detect_gpu, collect,
}

digits_value-digit :
    (value d : ℕ) (s : Text)
    → d < 10
    → digits_value value ((b'0' + d) ∷ s) ≡ digits_value (value * 10 + d) s
unfolding digits_value
digits_value-digit value d s small =
    let digit : is_digit (48 + d) ≡ true = ground (arith, small) in
    rw digit (ap (λ v. digits_value v s) (omega arith))

digits_value-digits_before :
    (fuel n : ℕ) (later : Text)
    → n < fuel
    → digits_value 0 (digits_before fuel n later) ≡ digits_value n later
unfolding digits_before
digits_value-digits_before zero n later h = absurd (omega (arith, h))
digits_value-digits_before (suc fuel) n later h = elim (Bool-cases (ltb n 10)) [
  | inl small ↦ rw small (
      digits_value-digit 0 n later (ground (arith, small))
      ∙ ap (λ v. digits_value v later) (omega arith))
  | inr big ↦ rw big (
      digits_value-digits_before fuel (n / 10) ((b'0' + n % 10) ∷ later) (ground (arith, h, big))
      ∙ digits_value-digit (n / 10) (n % 10) later (omega arith)
      ∙ ap (λ v. digits_value v later) (omega arith))
]

digits_before-some :
    (fuel n : ℕ) (later : Text) → (d : ℕ) × (s : Text) × (digits_before (suc fuel) n later ≡ d ∷ s)
unfolding digits_before
digits_before-some zero n later = elim (Bool-cases (ltb n 10)) [
  | inl small ↦ (b'0' + n, later, rw small refl)
  | inr big ↦ (b'0' + n % 10, later, rw big refl)
]
digits_before-some (suc fuel) n later = elim (Bool-cases (ltb n 10)) [
  | inl small ↦ (b'0' + n, later, rw small refl)
  | inr big ↦
      let (d, s, e) = digits_before-some fuel (n / 10) ((b'0' + n % 10) ∷ later) in (d, s, rw big e)
]

parse_u64-some :
    (n d : ℕ) (s : Text) → n < 2 ^ 64 → digits_value 0 (d ∷ s) ≡ some n → parse_u64 (d ∷ s) ≡ some n
unfolding parse_u64 digits_value
parse_u64-some n d s fits e = elim (Bool-cases (d == 43)) [
  | inl plus ↦
      let no_digit : is_digit d ≡ false = ground (arith, plus) in
      absurd (let left = rw no_digit at e in ground (arith, left))
  | inr other ↦
      let small : ltb n (2 ^ 64) ≡ true = ground (arith, fits) in rw (other, e, small) refl
]

-- A number of 64 bits is read back from its decimal digits.
parse_u64-decimal : (n : ℕ) → n < 2 ^ 64 → parse_u64 (decimal n) ≡ some n
unfolding decimal digits_value
parse_u64-decimal n fits =
    let (d, s, e) = digits_before-some n n [] in
    let value : digits_value 0 (digits_before (suc n) n []) ≡ some n =
      digits_value-digits_before (suc n) n [] (omega arith) in
    ap parse_u64 e ∙ parse_u64-some n d s fits (ap (digits_value 0) (sym e) ∙ value)

detect_gpu-decimal :
    (var : (name : Text) → Option Text) (proc : Option (List (Option Text))) (name : Text)
    (vram_mb : ℕ)
    → vram_mb < 2 ^ 64
    → var (codes "GPU_NAME") ≡ some name
    → var (codes "GPU_VRAM_MB") ≡ some (decimal vram_mb)
    → detect_gpu var proc ≡ (name, vram_mb)
unfolding detect_gpu or_probed
detect_gpu-decimal var proc name vram_mb fits named sized =
    (λ i. or_probed proc (overridden (named i) (sized i)))
    ∙ ap (λ n. or_probed proc (both (some name) n)) (parse_u64-decimal vram_mb fits)

-- A node whose operator sets a name and the decimal digits of a memory below 2^64 reports exactly
-- these, whatever the driver says.
pub collect-decimal :
    (var : (name : Text) → Option Text) (proc : Option (List (Option Text)))
    (cpu_count total_memory : ℕ) (name : Text) (vram_mb : ℕ)
    → vram_mb < 2 ^ 64
    → var (codes "GPU_NAME") ≡ some name
    → var (codes "GPU_VRAM_MB") ≡ some (decimal vram_mb)
    → collect var proc cpu_count total_memory ≡ record {
      gpu_name = name;
      vram_mb = vram_mb;
      cpu_count = cpu_count;
      total_ram_mb = total_memory / 1024 / 1024;
    }
unfolding collect
collect-decimal var proc cpu_count total_memory name vram_mb fits named sized =
    ap
      (λ (gpu : Text × ℕ). record {
        gpu_name = gpu.0;
        vram_mb = gpu.1;
        cpu_count = cpu_count;
        total_ram_mb = total_memory / 1024 / 1024;
      })
      (detect_gpu-decimal var proc name vram_mb fits named sized)
