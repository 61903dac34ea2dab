-- ===== src/Verifiers/Tinfoil/Sev.antt =====
-- verifiers/tinfoil_sev.py: the layout of an SEV-SNP report.
pub mod Layout
use Prim.Native.Nat.{◌/◌, ◌%◌}
use awesome_private_inferenc.Prelude.{
  ℕ, ◌+◌, ◌*◌, Bool, Option, none, some, List, [], ◌∷◌, nat_beq, if◌then◌else◌, length,
}
use awesome_private_inferenc.Verifiers.Hex.{Bytes}
use awesome_private_inferenc.Verifiers.Bindings.{slice}

pub record SnpReport : Type 0 where
  pub version : ℕ
  pub guest_svn : ℕ
  pub policy : ℕ
  pub debug : Bool
  pub vmpl : ℕ
  pub signature_algo : ℕ
  pub current_tcb : Bytes
  pub flags : ℕ
  pub report_data : Bytes
  pub measurement : Bytes
  pub host_data : Bytes
  pub reported_tcb : Bytes
  pub raw : Bytes

-- REPORT_LEN
abbrev pub report_len : ℕ
report_len = 1184

-- `int.from_bytes(data, "little")`
unfoldable pub little_endian : Bytes → ℕ
little_endian [] = 0
little_endian (b ∷ bs) = b + 256 * little_endian bs

-- `bool(policy & (1 << 19))`
unfoldable pub debug_bit : ℕ → Bool
debug_bit policy = nat_beq (policy / 524288 % 2) 1

-- the fields at their offsets
unfoldable pub fields_of : Bytes → SnpReport
fields_of report =
    let policy = little_endian (slice 0x08 8 report) in
    record {
      version = little_endian (slice 0x00 4 report);
      guest_svn = little_endian (slice 0x04 4 report);
      policy = policy;
      debug = debug_bit policy;
      vmpl = little_endian (slice 0x30 4 report);
      signature_algo = little_endian (slice 0x34 4 report);
      current_tcb = slice 0x38 8 report;
      flags = little_endian (slice 0x48 4 report);
      report_data = slice 0x50 64 report;
      measurement = slice 0x90 48 report;
      host_data = slice 0xC0 32 report;
      reported_tcb = slice 0x180 8 report;
      raw = report;
    }

-- `parse`; `none` is the `ValueError`
unfoldable pub parse : Bytes → Option SnpReport
parse report = if nat_beq (length report) report_len then some (fields_of report) else none
