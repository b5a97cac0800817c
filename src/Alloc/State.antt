-- ===== src/Alloc/State.antt =====
-- The globals of lib/memory/src/memory.c, the log file, and what the allocator asks of the
-- system: `mmap`, `brk` and the opening of the log.
use metrics_monitor.Base.{
  ℕ, ◌+◌, ◌≤◌, ◌<◌, ◌≡◌, ◌≢◌, ◌⊎◌, ◌%◌, ◌-◌, Bool, true, Option, none, some, List, [], ◌∷◌, ◌++◌,
  String, if◌then◌else◌, All,
}
use metrics_monitor.Memory.{Mem, null}

-- An `int` that `set_method` stores: the code tests it for 0, 1 and 2 alone.
pub data Method : Type 0 where
  first_fit best_fit worst_fit : Method
  other : ℕ → Method

-- `alloc_type`.
pub data AllocType : Type 0 where
  alloc_type_malloc alloc_type_calloc alloc_type_realloc alloc_type_free : AllocType

-- What `log_function_call` writes, less the time of day.
pub record Entry : Type 0 where
  pub func_name : String
  pub type : AllocType
  pub ptr : ℕ
  pub size : ℕ

-- A region that `mmap` handed out: its address and the length that was asked for.
pub record Mapping : Type 0 where
  pub start : ℕ
  pub len : ℕ

-- The length of a mapping in whole pages.
abbrev pub round_page : ℕ → ℕ
round_page n = n + (4095 - (n + 4095) % 4096)

-- `mmap(0, s, PROT_READ | PROT_WRITE, MAP_PRIVATE | MAP_ANONYMOUS, -1, 0)` given the regions
-- handed out so far and the memory: the address and the memory with the new region, or nothing
-- for MAP_FAILED. `fopen_log` says whether `fopen("log.txt", "a")` gives a file.
pub record Os : Type 0 where
  pub mmap : List Mapping → ℕ → Mem → Option (ℕ × Mem)
  pub fopen_log : Bool

-- Two regions that share no byte.
abbrev pub Disjoint : ℕ → ℕ → ℕ → ℕ → Type 0
Disjoint a n b k = (a + n ≤ b) ⊎ (b + k ≤ a)

-- The documented behaviour of `mmap`: a region of whole pages at a page boundary, apart from the
-- regions still mapped, inside the address space and not at 0, and nothing else is written.
pub record MmapGives (maps : List Mapping) (s : ℕ) (m : Mem) (b : ℕ) (m' : Mem) : Type 0 where
  pub ne_null : b ≢ null
  pub at_page : b % 4096 ≡ 0
  pub in_space : b + round_page s + 4096 ≤ 18446744073709551616
  pub fresh : All (λ (r : Mapping). Disjoint b (round_page s) r.start (round_page r.len)) maps
  pub some_len : 0 < s
  pub kept : (x : ℕ) → Disjoint x 1 b (round_page s) → m' x ≡ m x

abbrev pub IsMmap : Os → Type 0
IsMmap os =
    (maps : List Mapping) (s : ℕ) (m : Mem) (b : ℕ) (m' : Mem)
    → os.mmap maps s m ≡ some (b, m')
    → MmapGives maps s m b m'

pub record Heap : Type 0 where
  pub mem : Mem
  pub base : ℕ
  pub method : Method
  pub malloc_call : ℕ
  pub log_open : Bool
  pub log : List Entry
  pub maps : List Mapping
  pub breaks : List ℕ

-- A command on the heap; `none` means that a loop ran out of fuel.
abbrev pub Cmd : Type 0 → Type 0
Cmd A = Heap → Option (A × Heap)

abbrev pub pure : {A : Type 0} → A → Cmd A
pure a h = some (a, h)

infixl 5 ◌>>=◌ ◌>>◌
abbrev pub ◌>>=◌ : {A B : Type 0} → Cmd A → (A → Cmd B) → Cmd B
◌>>=◌ m f h = elim (m h) [ none ↦ none | some (a, h') ↦ f a h' ]

abbrev pub ◌>>◌ : {B : Type 0} → Cmd (Unit {0}) → Cmd B → Cmd B
m >> k = m >>= λ _. k

-- Reads the state.
abbrev pub get : Cmd Heap
get h = some (h, h)

abbrev pub put : Heap → Cmd (Unit {0})
put h' h = some (tt, h')

abbrev pub write : (Mem → Mem) → Cmd (Unit {0})
write f h = some (tt, record h { mem = f h.mem })

-- `log_function_call`: appends a line to the open log.
unfoldable pub log_function_call : Entry → Heap → Heap
log_function_call e h = record h { log = h.log ++ (e ∷ []) }

-- `log_handler`: opens the log at need; if that fails nothing is written.
unfoldable pub log_handler : Os → Entry → Heap → Heap
unfolding log_function_call
log_handler os e h =
    let opened : Bool = if h.log_open then true else os.fopen_log in
    if opened
    then log_function_call e (record h { log_open = opened })
    else record h { log_open = opened }

-- `get_method`, `set_method` and `malloc_control`, which refuses any other number.
unfoldable pub get_method : Heap → Method
get_method h = h.method

unfoldable pub set_method : Method → Heap → Heap
set_method m h = record h { method = m }

unfoldable pub malloc_control : Method → Heap → Heap
unfolding set_method
malloc_control Method.first_fit h = set_method first_fit h
malloc_control Method.best_fit h = set_method best_fit h
malloc_control Method.worst_fit h = set_method worst_fit h
malloc_control (Method.other _) h = h
