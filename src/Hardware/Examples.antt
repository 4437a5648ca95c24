-- ===== src/Hardware/Examples.antt =====
-- A node with figures set by its operator, and one with a driver.
use infer_platform.Base.{
  ◌≡◌, refl, [], ◌∷◌, Option, none, some, Text, codes, decimal, digits_before, text_eq,
  strip_prefix, trim, trim_start, is_whitespace, arith, if◌then◌else◌,
}
use infer_platform.Billing.Webhook.{split}
use infer_platform.Hardware.{
  digits_value, parse_u64, take_word, first_word, read_lines, probe_files, probe_nvidia_proc,
  or_probed, detect_gpu, collect,
}
use infer_platform.Hardware.Override.{collect-decimal}

detect : Unit {0}
unfolding collect detect_gpu or_probed probe_nvidia_proc probe_files read_lines first_word take_word
    parse_u64 digits_value split strip_prefix trim trim_start is_whitespace text_eq decimal
    digits_before
detect = tt

abbrev var : (name : Text) → Option Text
var name =
    if text_eq name (codes "GPU_NAME")
    then some (codes "G")
    else if text_eq name (codes "GPU_VRAM_MB")
    then some (codes "24576")
    else none

named : var (codes "GPU_NAME") ≡ some (codes "G")
unfolding detect
named = refl

sized : var (codes "GPU_VRAM_MB") ≡ some (decimal 24576)
unfolding detect
sized = refl

collect-decimal_example :
    collect var none 8 34359738368
    ≡ record { gpu_name = codes "G"; vram_mb = 24576; cpu_count = 8; total_ram_mb = 32768 }
collect-decimal_example =
    collect-decimal var none 8 34359738368 (codes "G") 24576 (omega arith) named sized

probed :
    detect_gpu
      (λ name. none)
      (some (some (codes "Model: \t A100 \nVideo Memory: 40960 MiB\n") ∷ []))
    ≡ (codes "A100", 40960)
unfolding detect
probed = refl
