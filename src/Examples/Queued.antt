-- ===== src/Examples/Queued.antt =====
-- The theorems on queued single-qubit gates at concrete gates, and at a state vector that only knows
-- its width.
use qblaze.Base.{ℕ, ◌≡◌, arith, Bool, true, false, [], ◌∷◌, leb, if◌then◌else◌, ok, panic}
use qblaze.Angle.{Angle, pi_1_4, pi_1_2, pi_3_4}
use qblaze.U3.{U3, u3_i, u3_h, IsNormal, adjoint, compose}
use qblaze.U3.Compose.{group_lem}
use qblaze.Sfree.Ops
use qblaze.Sfree.Ops.{Queue, empty_queue, is_empty, queue_x, clear_queue}
use qblaze.Simulator.{Backend, QubitState, Simulator}

abbrev no_mix : Angle → Angle → Angle → Angle × Angle × Angle
no_mix a b c = (a, b, c)

abbrev tilted : U3
tilted = record { theta = pi_1_4; phi = pi_3_4; lambda = pi_1_2 }

tilted-IsNormal : IsNormal tilted
tilted-IsNormal = record {
  theta-le = omega arith;
  phi-lt = omega arith;
  lambda-lt = omega arith;
  poles = λ e. absurd (ground arith);
}

u3_h-IsNormal : IsNormal u3_h
u3_h-IsNormal = record {
  theta-le = omega arith;
  phi-lt = omega arith;
  lambda-lt = omega arith;
  poles = λ e. absurd (ground arith);
}

abbrev half_mix : Angle → Angle → Angle → Angle × Angle × Angle
half_mix a b c = (pi_1_2, b, c)

group_lem_example :
    IsNormal (compose half_mix u3_h tilted)
    × IsNormal (adjoint tilted)
    × (adjoint (adjoint tilted) ≡ tilted)
    × (compose half_mix tilted u3_i ≡ tilted)
    × (compose half_mix u3_i tilted ≡ tilted)
    × (compose half_mix tilted (adjoint tilted) ≡ u3_i)
    × (compose half_mix (adjoint tilted) tilted ≡ u3_i)
group_lem_example =
    group_lem half_mix (λ a b c. omega arith) u3_h tilted u3_h-IsNormal tilted-IsNormal

-- A state vector of which only the largest qubit matters; past it the operations panic.
abbrev widths : Backend
widths = record {
  State = ℕ;
  mix = no_mix;
  fresh = λ q. q;
  max_qubit = λ s. s;
  length_of = λ s. 2000;
  collapses = λ s q gate. leb q 1;
  perform_u4 = λ q gate s. if leb q s then ok s else panic;
  perform_sfree = λ queue s. if leb (Ops.max_qubit queue) s then ok s else panic;
  grown = λ q s. ok q;
}

abbrev queued : Bool → U3 → QubitState
queued must gate = record {
  pending = gate;
  maybe_destructive = true;
  must_flush = must;
  is_reordered = false;
}

-- Two queued gates, and an X gate in the other queue.
abbrev two_queued : Bool → Simulator widths
two_queued must = record {
  state = 0;
  queue = queue_x empty_queue 3;
  qubits = (2, queued must u3_h) ∷ (3, queued false tilted) ∷ [];
}
