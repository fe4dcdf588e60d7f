-- ===== src/Spray/Params/Types.antt =====
-- spray_params.hpp: the descriptors, the requests and the journal. A bound of HUGE_VAL is no bound.
-- The text of a value is that of the standard streams, `number_text`; the reasons are values.
use Prim.Native.String.{String}
use dyx_3wd.Base.{ℕ, Bool, true, false, Option, List}

pub data Kind : Type 0 where
  bool_kind int_kind float_kind string_kind : Kind

pub data ParamClass : Type 0 where
  live idle_only restart : ParamClass

pub record Descriptor (R : Type 0) : Type 0 where
  pub name : String
  pub kind : Kind
  pub class : ParamClass
  pub dflt : R
  pub sdflt : String
  pub lo : Option R
  pub hi : Option R
  pub positive : Bool
  pub nonempty : Bool
  pub allowed : List String

pub record Change : Type 0 where
  pub seq : ℕ
  pub name : String
  pub old_value : String
  pub new_value : String
  pub source : String

pub record SetContext : Type 0 where
  pub mission_running : Bool
  pub source : String

pub record Item (R : Type 0) : Type 0 where
  pub name : String
  pub num : R
  pub str : String

-- Why a change is refused, with the name of the parameter.
pub data Refusal : Type 0 where
  unknown is_restart is_idle_only must_not_be_empty not_finite not_boolean : String → Refusal
  not_integer out_of_range not_positive : String → Refusal
  not_allowed : String → String → Refusal

-- A parameter's index is the place of its descriptor.
pub record ParamSet (R : Type 0) : Type 0 where
  pub num : ℕ → R
  pub str : ℕ → String
  pub journal : List Change
  pub seq : ℕ

abbrev pub is_string : Kind → Bool
is_string string_kind = true
is_string _ = false

abbrev pub is_bool : Kind → Bool
is_bool bool_kind = true
is_bool _ = false

abbrev pub is_int : Kind → Bool
is_int int_kind = true
is_int _ = false
