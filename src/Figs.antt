-- ===== src/Figs.antt =====
-- The structures of src/figs.h that the stages share, and its constants.
use opendab.Base.{ℕ, ◌*◌, Option, List, Buffer}

-- `#define`s: capacity units in a symbol, the first symbol of the Main Service Channel, symbols in a
-- common interleaved frame, bits in a capacity unit, bits in a symbol.
abbrev pub cus_per_sym : ℕ
cus_per_sym = 48

abbrev pub msc_start : ℕ
msc_start = 5

abbrev pub syms_per_cif : ℕ
syms_per_cif = 18

abbrev pub bits_per_cu : ℕ
bits_per_cu = 8 * 8

abbrev pub bits_per_sym : ℕ
bits_per_sym = 48 * 8 * 8

-- `struct subch`; every `int` of it is at least 0.
pub record Subch : Type 0 where
  pub subchid : ℕ
  pub startaddr : ℕ
  pub subchsz : ℕ
  pub bitrate : ℕ
  pub eepprot : ℕ
  pub protlvl : ℕ
  pub uep_indx : ℕ
  pub dabplus : ℕ

-- `struct symrange`; the arrays of four are read at 0 to 3. The list link is not used.
pub record Symrange : Type 0 where
  pub start : Buffer
  pub end : Buffer
  pub startcu : ℕ
  pub endcu : ℕ
  pub numsyms : ℕ

-- `struct service`. A label is the text up to its NUL; a pointer to a sub-channel is its index in
-- `schan`. The links of the list are the order of the list that holds the services.
pub record Service : Type 0 where
  pub label : List ℕ
  pub sid : ℕ
  pub pa : Option ℕ
  pub sa : Option ℕ

-- `struct ens_info`; `schan` is read at 0 to 63.
pub record EnsInfo : Type 0 where
  pub label : List ℕ
  pub eid : ℕ
  pub num_srvs : ℕ
  pub num_schans : ℕ
  pub srv : List Service
  pub schan : ℕ → Subch

-- `struct selsrv`; `sch` is an index in `schan`.
pub record Selsrv : Type 0 where
  pub sch : Option ℕ
  pub sid : ℕ
