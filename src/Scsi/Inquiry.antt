-- ===== src/Scsi/Inquiry.antt =====
-- TTM50/LIBS/SCSI.H: `struct scsi_inquiry`, and its layout in memory. The bit fields of a byte are
-- laid out from the least significant bit on, as the SCSI standard numbers them and as the
-- compiler of the library does.
pub mod Layout
use ttm.Prelude.{ℕ, ◌+◌, ◌*◌, ◌/◌, ◌%◌, List, [], ◌∷◌, ◌++◌, get_or, take, drop, replicate}

pub record Inquiry : Type 0 where
  pub type : ℕ
  pub qualifier : ℕ
  pub modifier : ℕ
  pub rmb : ℕ
  pub ansi : ℕ
  pub ecma : ℕ
  pub iso : ℕ
  pub format : ℕ
  pub trmiop : ℕ
  pub aenc : ℕ
  pub length : ℕ
  pub sftre : ℕ
  pub cmdque : ℕ
  pub linked : ℕ
  pub sync : ℕ
  pub wbus16 : ℕ
  pub wbus32 : ℕ
  pub reladr : ℕ
  pub vendor : List ℕ
  pub product : List ℕ
  pub revision : List ℕ

-- The 36 bytes that a structure takes, the reserved ones 0.
unfoldable pub to_bytes : Inquiry → List ℕ
to_bytes q =
    (q.type + q.qualifier * 32)
    ∷ (q.modifier + q.rmb * 128)
    ∷ (q.ansi + q.ecma * 8 + q.iso * 64)
    ∷ (q.format + q.trmiop * 64 + q.aenc * 128)
    ∷ q.length
    ∷ 0
    ∷ 0
    ∷ (q.sftre
        + q.cmdque * 2
        + q.linked * 8
        + q.sync * 16
        + q.wbus16 * 32
        + q.wbus32 * 64
        + q.reladr * 128)
    ∷ (q.vendor ++ (q.product ++ q.revision))

-- The structure that a block of bytes holds.
unfoldable pub of_bytes : List ℕ → Inquiry
of_bytes b = record {
  type = get_or b 0 0 % 32;
  qualifier = get_or b 0 0 / 32;
  modifier = get_or b 1 0 % 128;
  rmb = get_or b 1 0 / 128;
  ansi = get_or b 2 0 % 8;
  ecma = get_or b 2 0 / 8 % 8;
  iso = get_or b 2 0 / 64;
  format = get_or b 3 0 % 16;
  trmiop = get_or b 3 0 / 64 % 2;
  aenc = get_or b 3 0 / 128;
  length = get_or b 4 0;
  sftre = get_or b 7 0 % 2;
  cmdque = get_or b 7 0 / 2 % 2;
  linked = get_or b 7 0 / 8 % 2;
  sync = get_or b 7 0 / 16 % 2;
  wbus16 = get_or b 7 0 / 32 % 2;
  wbus32 = get_or b 7 0 / 64 % 2;
  reladr = get_or b 7 0 / 128;
  vendor = take 8 (drop 8 b);
  product = take 16 (drop 16 b);
  revision = take 4 (drop 32 b);
}

-- memset( inquiry, 0, … )
unfoldable pub cleared : Inquiry
unfolding of_bytes
cleared = of_bytes (replicate 36 0)
