-- ===== src/Script/Defs.antt =====
-- Opcodes and their execution. A stack element that encodes a number of at most five bytes is a
-- `num`; a longer string is a `str`. The top of a stack is the head of the list. The semantics is
-- Bitcoin's (tapscript: the argument of OP_IF is 0 or 1), not code of the repository.
use bit_vm.Prelude.{
  ℕ, zero, suc, ◌+◌, ◌-◌, ◌*◌, ◌^◌, Bool, true, false, ◌&&◌, ◌||◌, not, Option, none, some, List,
  [], ◌∷◌, length, get_elem?, ltb, ◌==◌, if◌then◌else◌, ◌>>=◌, ◌>>◌, assert, bytes_eq,
}
use bit_vm.Prelude.Int.{ℤ, pos, ◌+ℤ◌, ◌-ℤ◌, lebℤ, eqℤ, minℤ, maxℤ, magnitude, is_negative}
use bit_vm.Hashing.{Bytes}
use bit_vm.Words.Bytes.{le_bytes}

pub data Item : Type 0 where
  num : ℤ → Item
  str : Bytes → Item

abbrev pub Stack : Type 0
Stack = List Item

pub data Op : Type 0 where
  push : ℤ → Op
  push_bytes : Bytes → Op
  op_if op_notif op_else op_endif op_verify : Op
  op_toaltstack op_fromaltstack : Op
  op_dup op_2dup op_3dup op_drop op_2drop op_nip op_over op_2over op_swap op_2swap op_rot op_2rot :
      Op
  op_tuck op_pick op_roll op_depth op_size : Op
  op_add op_sub op_1add op_1sub op_negate op_abs op_not op_booland op_boolor : Op
  op_min op_max op_within : Op
  op_lessthan op_greaterthan op_lessthanorequal op_greaterthanorequal : Op
  op_numequal op_numequalverify op_numnotequal op_equal op_equalverify : Op
  op_hash160 op_return : Op

abbrev pub Script : Type 0
Script = List Op

pub record State : Type 0 where
  pub main : Stack
  pub alt : Stack
  pub conds : List Bool

abbrev pub state : Stack → Stack → State
state main alt = record { main = main; alt = alt; conds = [] }

abbrev pub fits : ℤ → Bool
fits z = ltb (magnitude z) (2 ^ 31)

-- The operand of an arithmetic opcode has at most four bytes.
abbrev pub operand : Item → Option ℤ
operand (num z) = if fits z then some z else none
operand (str b) = none

abbrev pub index_of : Item → Option ℕ
index_of (num (pos n)) = some n
index_of _ = none

abbrev pub condition : Item → Option Bool
condition (num (pos zero)) = some false
condition (num (pos (suc zero))) = some true
condition _ = none

abbrev pub bool : Bool → Item
bool b = num (pos (if b then 1 else 0))

abbrev pub is_zero : ℤ → Bool
is_zero z = eqℤ z (pos 0)

-- A string is false if all its bytes are zero, but for a sign bit in the last one.
unfoldable pub is_true_bytes : Bytes → Bool
is_true_bytes [] = false
is_true_bytes (b ∷ []) = not (b == 0) && not (b == 128)
is_true_bytes (b ∷ c ∷ bs) = not (b == 0) || is_true_bytes (c ∷ bs)

abbrev pub is_true : Item → Bool
is_true (num z) = not (is_zero z)
is_true (str b) = is_true_bytes b

-- The length of a number's minimal encoding.
unfoldable pub num_size : ℤ → ℕ
num_size z =
    let m : ℕ = magnitude z in
    if m == 0
    then 0
    else if ltb m (2 ^ 7)
    then 1
    else if ltb m (2 ^ 15)
    then 2
    else if ltb m (2 ^ 23)
    then 3
    else if ltb m (2 ^ 31)
    then 4
    else 5

-- Little-endian, with the sign in the highest bit.
unfoldable pub encode : ℤ → Bytes
unfolding num_size
encode z =
    le_bytes (num_size z)
      (magnitude z + (if is_negative z then 128 * 256 ^ (num_size z - 1) else 0))

abbrev pub item_size : Item → ℕ
item_size (num z) = num_size z
item_size (str b) = length b

abbrev pub same : Item → Item → Bool
same (num a) (num b) = eqℤ a b
same (str a) (str b) = bytes_eq a b
same (num a) (str b) = false
same (str a) (num b) = false

-- The element `n` places below the top, and the stack without it.
unfoldable pub take_out : ℕ → Stack → Option (Item × Stack)
take_out n [] = none
take_out zero (x ∷ s) = some (x, s)
take_out (suc n) (x ∷ s) = take_out n s >>= λ r. some (r.0, x ∷ r.1)

abbrev pub unary : (ℤ → Item) → Stack → Option Stack
unary f (x ∷ s) = operand x >>= λ a. some (f a ∷ s)
unary f [] = none

abbrev pub binary : (ℤ → ℤ → Item) → Stack → Option Stack
binary f (y ∷ x ∷ s) = operand x >>= λ a. operand y >>= λ b. some (f a b ∷ s)
binary f _ = none

abbrev pub drop_true : Stack → Option Stack
drop_true (x ∷ s) = if is_true x then some s else none
drop_true [] = none

module _ (hash160 : Bytes → Bytes) where
  abbrev pub hash_item : Item → Item
  hash_item (num z) = str (hash160 (encode z))
  hash_item (str b) = str (hash160 b)

  -- The opcodes that touch the main stack only.
  unfoldable pub on_main : Op → Stack → Option Stack
  unfolding take_out
  on_main (push z) s = some (num z ∷ s)
  on_main (push_bytes b) s = some (str b ∷ s)
  on_main op_verify s = drop_true s
  on_main op_dup (x ∷ s) = some (x ∷ x ∷ s)
  on_main op_2dup (y ∷ x ∷ s) = some (y ∷ x ∷ y ∷ x ∷ s)
  on_main op_3dup (z ∷ y ∷ x ∷ s) = some (z ∷ y ∷ x ∷ z ∷ y ∷ x ∷ s)
  on_main op_drop (x ∷ s) = some s
  on_main op_2drop (y ∷ x ∷ s) = some s
  on_main op_nip (y ∷ x ∷ s) = some (y ∷ s)
  on_main op_over (y ∷ x ∷ s) = some (x ∷ y ∷ x ∷ s)
  on_main op_2over (d ∷ c ∷ b ∷ a ∷ s) = some (b ∷ a ∷ d ∷ c ∷ b ∷ a ∷ s)
  on_main op_swap (y ∷ x ∷ s) = some (x ∷ y ∷ s)
  on_main op_2swap (d ∷ c ∷ b ∷ a ∷ s) = some (b ∷ a ∷ d ∷ c ∷ s)
  on_main op_rot (c ∷ b ∷ a ∷ s) = some (a ∷ c ∷ b ∷ s)
  on_main op_2rot (f ∷ e ∷ d ∷ c ∷ b ∷ a ∷ s) = some (b ∷ a ∷ f ∷ e ∷ d ∷ c ∷ s)
  on_main op_tuck (y ∷ x ∷ s) = some (y ∷ x ∷ y ∷ s)
  on_main op_pick (n ∷ s) = do i ← index_of n; x ← get_elem? s i; some (x ∷ s)
  on_main op_roll (n ∷ s) = do i ← index_of n; r ← take_out i s; some (r.0 ∷ r.1)
  on_main op_depth s = some (num (pos (length s)) ∷ s)
  on_main op_size (x ∷ s) = some (num (pos (item_size x)) ∷ x ∷ s)
  on_main op_add s = binary (λ a b. num (a +ℤ b)) s
  on_main op_sub s = binary (λ a b. num (a -ℤ b)) s
  on_main op_1add s = unary (λ a. num (a +ℤ pos 1)) s
  on_main op_1sub s = unary (λ a. num (a -ℤ pos 1)) s
  on_main op_negate s = unary (λ a. num (pos 0 -ℤ a)) s
  on_main op_abs s = unary (λ a. num (pos (magnitude a))) s
  on_main op_not s = unary (λ a. bool (is_zero a)) s
  on_main op_booland s = binary (λ a b. bool (not (is_zero a) && not (is_zero b))) s
  on_main op_boolor s = binary (λ a b. bool (not (is_zero a) || not (is_zero b))) s
  on_main op_min s = binary (λ a b. num (minℤ a b)) s
  on_main op_max s = binary (λ a b. num (maxℤ a b)) s
  on_main op_within (hi ∷ lo ∷ x ∷ s) = do
    a ← operand x
    l ← operand lo
    h ← operand hi
    some (bool (lebℤ l a && not (lebℤ h a)) ∷ s)
  on_main op_lessthan s = binary (λ a b. bool (not (lebℤ b a))) s
  on_main op_greaterthan s = binary (λ a b. bool (not (lebℤ a b))) s
  on_main op_lessthanorequal s = binary (λ a b. bool (lebℤ a b)) s
  on_main op_greaterthanorequal s = binary (λ a b. bool (lebℤ b a)) s
  on_main op_numequal s = binary (λ a b. bool (eqℤ a b)) s
  on_main op_numequalverify s = binary (λ a b. bool (eqℤ a b)) s >>= drop_true
  on_main op_numnotequal s = binary (λ a b. bool (not (eqℤ a b))) s
  on_main op_equal (y ∷ x ∷ s) = some (bool (same x y) ∷ s)
  on_main op_equalverify (y ∷ x ∷ s) = assert (same x y) >> some s
  on_main op_hash160 (x ∷ s) = some (hash_item x ∷ s)
  on_main _ _ = none

  -- An opcode outside a branch that is skipped.
  unfoldable pub exec : Op → State → Option State
  unfolding on_main
  exec op_toaltstack st = elim st.main [
    | [] ↦ none
    | x ∷ s ↦ some (record st { main = s; alt = x ∷ st.alt })
  ]
  exec op_fromaltstack st = elim st.alt [
    | [] ↦ none
    | x ∷ t ↦ some (record st { main = x ∷ st.main; alt = t })
  ]
  exec op st = on_main op st.main >>= λ s. some (record st { main = s })

  abbrev pub all_true : List Bool → Bool
  all_true [] = true
  all_true (c ∷ cs) = c && all_true cs

  -- What OP_IF and OP_NOTIF do to the stack of conditions.
  abbrev pub branch : (Bool → Bool) → State → Option State
  branch f st =
      if all_true st.conds
      then elim st.main [
        | [] ↦ none
        | x ∷ s ↦ condition x >>= λ c. some (record st { main = s; conds = f c ∷ st.conds })
      ]
      else some (record st { conds = false ∷ st.conds })

  unfoldable pub step : Op → State → Option State
  unfolding exec
  step op_if st = branch (λ c. c) st
  step op_notif st = branch not st
  step op_else st = elim st.conds [ [] ↦ none | c ∷ cs ↦ some (record st { conds = not c ∷ cs }) ]
  step op_endif st = elim st.conds [ [] ↦ none | c ∷ cs ↦ some (record st { conds = cs }) ]
  step op st = if all_true st.conds then exec op st else some st

  unfoldable pub run : Script → State → Option State
  unfolding step
  run [] st = some st
  run (op ∷ script) st = step op st >>= run script
