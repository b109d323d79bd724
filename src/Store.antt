-- ===== src/Store.antt =====
-- The requests of xenpci/xenbus.c and what the callers make of the replies: XenBus_Read, Write, List,
-- SendAddWatch, SendRemWatch, StartTransaction and EndTransaction, each as the request sent and the
-- reading of the reply that comes; and how a watch event finds its watch.
pub mod Decimal
pub mod Token
mod Tests
use win_pvdrivers_mirror.Base.{
  ℕ, zero, suc, ◌+◌, ◌-◌, ◌*◌, ◌/◌, ◌%◌, Bool, true, false, ◌&&◌, ◌||◌, Option, none, some, List,
  [], ◌∷◌, ◌++◌, ltb, leb, ◌==◌, if◌then◌else◌, take, drop,
}
use win_pvdrivers_mirror.Xenbus.{XbMsg, XbState, xb_write, send_request}
use win_pvdrivers_mirror.Watch.{body, errmsg, strlen, list_names, watch_fired}

-- A string with its NUL.
abbrev pub c_str : List ℕ → List ℕ
c_str s = s ++ 0 ∷ []

-- `enum xsd_sockmsg_type`
abbrev pub xs_directory : ℕ
xs_directory = 1

abbrev pub xs_read : ℕ
xs_read = 2

abbrev pub xs_watch : ℕ
xs_watch = 4

abbrev pub xs_unwatch : ℕ
xs_unwatch = 5

abbrev pub xs_transaction_start : ℕ
xs_transaction_start = 6

abbrev pub xs_transaction_end : ℕ
xs_transaction_end = 7

abbrev pub xs_write : ℕ
xs_write = 11

-- The digits of a number as "%d" prints it, with fuel.
pub digits_of : ℕ → ℕ → List ℕ
digits_of zero n = []
digits_of (suc fuel) n =
    let rest = digits_of fuel (n / 10) in
    if ltb n 10 then (48 + n) ∷ [] else rest ++ (48 + n % 10) ∷ []

-- `RtlStringCbPrintfA(Token, ARRAY_SIZE(Token), "%d", slot)`
pub print_token : ℕ → List ℕ
print_token slot = digits_of (suc slot) slot

-- The digits that a string starts with, as a number.
pub read_digits : ℕ → List ℕ → ℕ
read_digits acc [] = acc
read_digits acc (x ∷ xs) =
    let rest = read_digits (acc * 10 + (x - 48)) xs in if leb 48 x && leb x 57 then rest else acc

abbrev pub is_space : ℕ → Bool
is_space x = (x == 32) || (leb 9 x && leb x 13)

pub skip_space : List ℕ → List ℕ
skip_space [] = []
skip_space (x ∷ xs) = let rest = skip_space xs in if is_space x then rest else x ∷ xs

-- A sign, then digits: whether the number is negative, and its size.
pub read_signed : List ℕ → Bool × ℕ
read_signed [] = (false, 0)
read_signed (x ∷ xs) =
    if x == 45
    then (true, read_digits 0 xs)
    else if x == 43
    then (false, read_digits 0 xs)
    else (false, read_digits 0 (x ∷ xs))

-- `atoi`
pub atoi : List ℕ → Bool × ℕ
atoi bytes = read_signed (skip_space bytes)

-- `XenBus_Raw` up to its wait.
pub send_raw : XbState → List ℕ → Option XbState
send_raw s msg = xb_write s msg

-- `XenBus_Read`: the request, and the error and the value from the reply.
pub send_read : XbState → (xbt : ℕ) (path : List ℕ) → Option XbState
send_read s xbt path = send_request s xs_read xbt (c_str path ∷ [])

pub read_result : Option XbMsg → Option (List ℕ) × Option (List ℕ)
read_result none = (errmsg none, none)
read_result (some m) = elim (errmsg (some m)) [
  | some msg ↦ (some msg, none)
  | none ↦ (none, some (body m))
]

-- `XenBus_Write`, which `XenBus_Printf` calls with the text it has printed; the value is sent without
-- a NUL. Its result is `errmsg`.
pub send_write : XbState → (xbt : ℕ) (path value : List ℕ) → Option XbState
send_write s xbt path value = send_request s xs_write xbt (c_str path ∷ value ∷ [])

-- `XenBus_List`
pub send_list : XbState → (xbt : ℕ) (pre : List ℕ) → Option XbState
send_list s xbt pre = send_request s xs_directory xbt (c_str pre ∷ [])

pub list_result : Option XbMsg → Option (List ℕ) × Option (List (List ℕ))
list_result none = (errmsg none, none)
list_result (some m) = elim (errmsg (some m)) [
  | some msg ↦ (some msg, none)
  | none ↦ (none, some (list_names (body m)))
]

-- `XenBus_SendAddWatch` and `XenBus_SendRemWatch`
pub send_add_watch : XbState → (xbt : ℕ) (path : List ℕ) (slot : ℕ) → Option XbState
send_add_watch s xbt path slot =
    send_request s xs_watch xbt (c_str path ∷ c_str (print_token slot) ∷ [])

pub send_rem_watch : XbState → (xbt : ℕ) (path : List ℕ) (index : ℕ) → Option XbState
send_rem_watch s xbt path index =
    send_request s xs_unwatch xbt (c_str path ∷ c_str (print_token index) ∷ [])

-- `XenBus_StartTransaction`: the request is an empty string.
pub send_start : XbState → Option XbState
send_start s = send_request s xs_transaction_start 0 (c_str [] ∷ [])

-- The error, or `*xbt`.
pub start_result : Option XbMsg → Option (List ℕ) × Option (Bool × ℕ)
start_result none = (errmsg none, none)
start_result (some m) = elim (errmsg (some m)) [
  | some msg ↦ (some msg, none)
  | none ↦ (none, some (atoi (body m)))
]

-- `XenBus_EndTransaction` with "F" or "T"
pub send_end : XbState → (t : ℕ) (abort : Bool) → Option XbState
send_end s t abort =
    send_request s xs_transaction_end t (c_str ((if abort then 70 else 84) ∷ []) ∷ [])

-- `XenBus_WatchWorkItemProc` on the body of a watch event, which is the path and the token.
pub watch_item : XbState → List ℕ → XbState
watch_item s bytes =
    let path = take (strlen bytes) bytes in
    let index = atoi (drop (strlen bytes + 1) bytes) in watch_fired s path index.0 index.1
