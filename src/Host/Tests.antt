-- ===== src/Host/Tests.antt =====
-- The host's words at a stack of three numbers.
use qlforth.Prelude.{[], ◌∷◌, refl, ◌==◌, if◌then◌else◌, arith, Returns}
use qlforth.Host.{Vm, cfp_divmod}
use qlforth.Host.Division.{IsDivision, cfp_divmod-IsDivision}
use qlforth.Host.Lists.Effects.{run_primitive-effect}
use qlforth.Host.Lists.{Stands}
use qlforth.Host.Primitives.{run_primitive}
use qlforth.Functions.{prim_div}

abbrev three : Vm
three = record { tos = 7; data_stack = λ i. if i == 2 then 45 else 3; dp = 3 }

cfp_divmod-IsDivision_example : Returns (IsDivision three) (cfp_divmod three)
cfp_divmod-IsDivision_example =
    cfp_divmod-IsDivision three (omega arith) (omega arith) (omega arith) (omega arith)

-- -7 is divided by 2.
abbrev seven_halves : Vm
seven_halves = record { tos = 2; data_stack = λ i. if i == 1 then 0xffff_fff9 else 30; dp = 2 }

run_primitive-effect_example :
    Returns (Stands (0xffff_fffd ∷ 30 ∷ [])) (run_primitive prim_div seven_halves)
run_primitive-effect_example =
    run_primitive-effect prim_div (2 ∷ 0xffff_fff9 ∷ 30 ∷ []) (0xffff_fffd ∷ 30 ∷ []) seven_halves
      (omega arith, (omega arith, (omega arith, tt))) refl (omega arith)
      (refl, (omega arith, refl, (omega arith, refl, refl)))
