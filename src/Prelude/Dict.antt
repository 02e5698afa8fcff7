-- ===== src/Prelude/Dict.antt =====
-- A dict of Python that is read by its keys, as a function of the key.
use Prim.Native.String.{String}
use mathlib.Core.Path.{◌≡◌}
use mathlib.Core.Logic.{◌≢◌}
use native.Mathlib.Omega.{arith}
use text.Mathlib.Text.{◌==◌ as str_eq}
use text.Mathlib.TextEquality.{eq_iff}
use imghost.Prelude.Tests.{if◌then◌else◌}

-- `d[k] = v`
abbrev pub update {ℓ} : {V : Type ℓ} → (String → V) → String → V → String → V
update d k v j = if str_eq k j then v else d j

pub update_same {ℓ} : {V : Type ℓ} (d : String → V) (k : String) (v : V) → update d k v k ≡ v
update_same d k v = ground (arith, eq_iff k k)

pub update_other {ℓ} :
    {V : Type ℓ} (d : String → V) (k : String) (v : V) (j : String) → k ≢ j → update d k v j ≡ d j
update_other d k v j h = ground (arith, eq_iff k j)
