-- ===== src/Control/Items.antt =====
-- Packed control items: the qubit and the value can be had back, and inverting flips the value.
use qblaze.Base.{◌+◌, ◌*◌, ◌/◌, ◌%◌, ◌<◌, ◌≤◌, ◌≡◌, arith, Bool, true, false, not, ◌==◌}
use qblaze.Base.Words.{bit_or-shift, bit_and-low_mask, bit_xor_step, bit_xor-zero, lt-two_pow}
use qblaze.Control.{item, qubit, value, invert, bool_to_u32, ControlItem, Qubit}

item_value : (q : Qubit) (v : Bool) → item q v ≡ q * 2 + bool_to_u32 v
unfolding item
item_value q true = bit_or-shift q 1 q 1 (lt-two_pow q) (omega arith)
item_value q false = bit_or-shift q 1 q 0 (lt-two_pow q) (omega arith)

pub qubit-item : (q : Qubit) (v : Bool) → qubit (item q v) ≡ q
unfolding qubit
qubit-item q true = omega (arith, item_value q true)
qubit-item q false = omega (arith, item_value q false)

value_odd : (c : ControlItem) → value c ≡ (c % 2 == 1)
unfolding value
value_odd c = ground (arith, bit_and-low_mask 1 c)

pub value-item : (q : Qubit) (v : Bool) → value (item q v) ≡ v
value-item q true = ground (arith, item_value q true, value_odd (item q true))
value-item q false = ground (arith, item_value q false, value_odd (item q false))

invert_value : (c : ControlItem) → invert c ≡ c / 2 * 2 + (c + 1) % 2
unfolding invert
invert_value c = omega (arith, bit_xor_step c 1, bit_xor-zero (c / 2) (c / 2) (lt-two_pow (c / 2)))

pub qubit-invert : (c : ControlItem) → qubit (invert c) ≡ qubit c
unfolding qubit
qubit-invert c = omega (arith, invert_value c)

pub value-invert : (c : ControlItem) → value (invert c) ≡ not (value c)
value-invert c = ground (arith, invert_value c, value_odd c, value_odd (invert c))

-- A control item is the one packed from its qubit and its value.
item-qubit-value : (c : ControlItem) → item (qubit c) (value c) ≡ c
unfolding qubit
item-qubit-value c = ground (arith, value_odd c, item_value (c / 2) (value c))

-- Items of different qubits are ordered as the qubits are.
pub item_order : (c d : ControlItem) → qubit c < qubit d → c < d
unfolding qubit
item_order c d h = omega arith

pub qubit_mono : (c d : ControlItem) → c ≤ d → qubit c ≤ qubit d
unfolding qubit
qubit_mono c d h = omega arith
