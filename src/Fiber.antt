-- ===== src/Fiber.antt =====
-- util/fiber/Fiber.h and Fiber.cpp. What runs between a switch of contexts and the switch back is a
-- parameter. A stack is the list of the bytes in use.
pub mod Stack
pub mod Scheduler
mod Tests
use lp_net.Prelude.{
  ◌-◌, ◌&&◌, ℕ, ◌*◌, List, [], ◌++◌, Option, none, some, Bool, true, false, ltb, leb, if◌then◌else◌,
  ◌>>=◌, length, take, drop,
}

pub data Status : Type 0 where
  ready : Status
  suspend : Status
  running : Status
  done : Status

-- `buffer` is what `buffer_` points to, and has `buf_cap` bytes.
pub record Fiber : Type 0 where
  pub fid : ℕ
  pub status : Status
  pub buffer : List ℕ
  pub buf_size : ℕ
  pub buf_cap : ℕ

-- kFiberBufferSize
abbrev pub buffer_size : ℕ
buffer_size = 128 * 1024

unfoldable pub init : ℕ → Fiber
init fid = record { fid = fid; status = ready; buffer = []; buf_size = 0; buf_cap = 0 }

-- memcpy to the start of the buffer: past its end it is a fault.
unfoldable pub copy_in : List ℕ → List ℕ → Option (List ℕ)
copy_in stack buffer =
    if leb (length stack) (length buffer) then some (stack ++ drop (length stack) buffer) else none

-- The `used` bytes at the bottom of the stack, which is the end of its memory.
unfoldable pub in_use : ℕ → List ℕ → List ℕ
in_use used memory = drop (length memory - used) memory

-- new_array n is what `new char[n]` holds; `memory` is `main_stack_`, and `used` of its bytes are in use. `none` is a
-- fault or a failed assertion.
unfoldable pub save_stack : (ℕ → List ℕ) → Fiber → List ℕ → ℕ → Option Fiber
save_stack new_array f memory used =
    let grows = ltb f.buf_cap used in
    let target = if grows then new_array used else f.buffer in
    if leb used buffer_size
    then (copy_in (in_use used memory) target >>= λ buffer. some (record f {
      buffer = buffer;
      buf_cap = if grows then used else f.buf_cap;
      buf_size = used;
    }))
    else none

-- The stack's memory with the kept bytes at its end: a copy from past the end of the buffer, or to before the start of the
-- memory, is a fault.
unfoldable pub load_stack : Fiber → List ℕ → Option (List ℕ)
load_stack f memory =
    if leb f.buf_size (length f.buffer) && leb f.buf_size (length memory)
    then some (take (length memory - f.buf_size) memory ++ take f.buf_size f.buffer)
    else none

-- `switch memory f` is the fiber when control comes back, after a switch with that memory as the stack.
unfoldable pub resume : (List ℕ → Fiber → Fiber) → Fiber → List ℕ → Option Fiber
resume switch f memory = elim f.status [
  | ready ↦ some (record (switch memory f) { status = running })
  | suspend ↦
      (load_stack f memory >>= λ memory'. some (record (switch memory' f) { status = running }))
  | running ↦ some f
  | done ↦ some f
]

unfoldable pub yield : (ℕ → List ℕ) → (Fiber → Fiber) → Fiber → List ℕ → ℕ → Option Fiber
yield new_array switch f memory used = elim f.status [
  | ready ↦ some f
  | suspend ↦ some f
  | running ↦
      (save_stack new_array (record f { status = suspend }) memory used >>= λ f'. some (switch f'))
  | done ↦ some f
]
