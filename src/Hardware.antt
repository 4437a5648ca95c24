-- ===== src/Hardware.antt =====
-- crates/node-agent/src/hardware.rs on Linux. The environment, the files of the NVIDIA driver and the
-- counts of sysinfo are arguments; a file is none when it cannot be read.
pub mod Override
mod Examples
use infer_platform.Base.{
  ℕ, ◌+◌, ◌-◌, ◌*◌, ◌/◌, ◌^◌, leb, ltb, ◌==◌, Bool, true, false, ◌&&◌, List, [], ◌∷◌, Option, none,
  some, Text, codes, strip_prefix, trim, trim_start, is_whitespace, if◌then◌else◌,
}
use infer_platform.Billing.Webhook.{split}

pub record HardwareInfo : Type 0 where
  pub gpu_name : Text
  pub vram_mb : ℕ
  pub cpu_count : ℕ
  pub total_ram_mb : ℕ

abbrev pub is_digit : ℕ → Bool
is_digit c = leb 48 c && leb c 57

unfoldable pub digits_value : (value : ℕ) → Text → Option ℕ
digits_value value [] = some value
digits_value value (c ∷ s) =
    let rest = digits_value (value * 10 + (c - 48)) s in if is_digit c then rest else none

abbrev pub fits_u64 : Option ℕ → Option ℕ
fits_u64 none = none
fits_u64 (some n) = if ltb n (2 ^ 64) then some n else none

abbrev pub parse_digits : Text → Option ℕ
parse_digits [] = none
parse_digits (c ∷ s) = fits_u64 (digits_value 0 (c ∷ s))

-- `parse::<u64>()`: a plus sign or none, and at least one digit.
unfoldable pub parse_u64 : Text → Option ℕ
unfolding digits_value
parse_u64 [] = none
parse_u64 (c ∷ s) = if c == 43 then parse_digits s else parse_digits (c ∷ s)

unfoldable pub take_word : Text → Text
unfolding is_whitespace
take_word [] = []
take_word (c ∷ s) = let rest = take_word s in if is_whitespace c then [] else c ∷ rest

abbrev word_of : Text → Option Text
word_of [] = none
word_of (c ∷ s) = some (take_word (c ∷ s))

-- `split_whitespace().next()`
unfoldable pub first_word : Text → Option Text
unfolding trim_start take_word
first_word s = word_of (trim_start s)

-- What the lines so far say.
pub record GpuLines : Type 0 where
  pub gpu_name : Option Text
  pub vram_mb : Option ℕ

abbrev read_model : Option Text → GpuLines → GpuLines
read_model none found = found
read_model (some rest) found = record found { gpu_name = some (trim rest) }

abbrev read_word : Option Text → GpuLines → GpuLines
read_word none found = found
read_word (some n) found = record found { vram_mb = parse_u64 n }

abbrev read_memory : Option Text → GpuLines → GpuLines
read_memory none found = found
read_memory (some rest) found = read_word (first_word rest) found

-- A carriage return at the end of a line goes with the blanks.
unfoldable pub read_lines : GpuLines → List Text → GpuLines
unfolding strip_prefix trim parse_u64 first_word
read_lines found [] = found
read_lines found (line ∷ lines) =
    read_lines
      (read_memory (strip_prefix line (codes "Video Memory:"))
        (read_model (strip_prefix line (codes "Model:")) found))
      lines

abbrev pub both : Option Text → Option ℕ → Option (Text × ℕ)
both none vram = none
both (some name) none = none
both (some name) (some vram) = some (name, vram)

abbrev no_lines : GpuLines
no_lines = record { gpu_name = none; vram_mb = none }

abbrev gpu_of : GpuLines → Option (Text × ℕ)
gpu_of found = both found.gpu_name found.vram_mb

-- The first file that names a GPU with its memory; a file that cannot be read ends the search.
unfoldable pub probe_files : List (Option Text) → Option (Text × ℕ)
unfolding split read_lines
probe_files [] = none
probe_files (none ∷ files) = none
probe_files (some content ∷ files) = elim (gpu_of (read_lines no_lines (split 10 content))) [
  | some gpu ↦ some gpu
  | none ↦ probe_files files
]

unfoldable pub probe_nvidia_proc : Option (List (Option Text)) → Option (Text × ℕ)
unfolding probe_files
probe_nvidia_proc none = none
probe_nvidia_proc (some files) = probe_files files

abbrev pub overridden : Option Text → Option Text → Option (Text × ℕ)
overridden none vram = none
overridden (some name) none = none
overridden (some name) (some vram) = both (some name) (parse_u64 vram)

abbrev pub or_unknown : Option (Text × ℕ) → Text × ℕ
or_unknown none = (codes "Unknown GPU", 0)
or_unknown (some gpu) = gpu

unfoldable pub or_probed : (proc : Option (List (Option Text))) → Option (Text × ℕ) → Text × ℕ
unfolding probe_nvidia_proc
or_probed proc (some gpu) = gpu
or_probed proc none = or_unknown (probe_nvidia_proc proc)

unfoldable pub detect_gpu :
    (var : (name : Text) → Option Text) → (proc : Option (List (Option Text))) → Text × ℕ
unfolding parse_u64 or_probed
detect_gpu var proc =
    or_probed proc (overridden (var (codes "GPU_NAME")) (var (codes "GPU_VRAM_MB")))

unfoldable pub collect :
    (var : (name : Text) → Option Text)
    → (proc : Option (List (Option Text))) → (cpu_count total_memory : ℕ) → HardwareInfo
unfolding detect_gpu
collect var proc cpu_count total_memory =
    let (gpu_name, vram_mb) = detect_gpu var proc in
    record {
      gpu_name = gpu_name;
      vram_mb = vram_mb;
      cpu_count = cpu_count;
      total_ram_mb = total_memory / 1024 / 1024;
    }
