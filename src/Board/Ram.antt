-- ===== src/Board/Ram.antt =====
-- The RAM of the board, through the translation, the table and the bounds checks.
use space_emu.Base.{ℕ, zero, suc, ◌+◌, ◌-◌, ◌<◌, ◌≤◌, ◌^◌, ◌≡◌, refl, arith, bit_and, true, List}
use space_emu.Base.{[], ◌∷◌, some, inl, inr, ap, ◌∙◌, ◌==◌}
use space_emu.Base.Bytes.{length}
use space_emu.Board.{Board, State, in_ram, items, low_item, ram_item, clint_item, htif_item}
use space_emu.Board.{plic_item, settled, board_read, board_write}
use space_emu.Cpu.{CpuState}
use space_emu.Device.{Reply}
use space_emu.Iomap.{find_item, read_bytes, write_bytes}
use space_emu.Iomap.Dispatch.{find_item-Among}
use space_emu.Iomap.Table.{IsTable}
use space_emu.Memory.{memory_size, ram_base_addr}
use space_emu.Memory.Safety.{memory_write-in_bounds, memory_read-in_bounds, read_at, write_at}
use space_emu.Translate.{Translation, address_translate, effective_priv, physical, pte_r_mask}
use space_emu.Translate.{pte_w_mask}
use space_emu.Translate.Vaddr.{take, drop, cause_fault_store, cause_store_page_fault}
use space_emu.Translate.Vaddr.{cause_fault_load, cause_load_page_fault, read_vaddr, write_vaddr}
use space_emu.Translate.Vaddr.{vaddr_loop, last_part}

take_all : (xs : List ℕ) → take (length xs) xs ≡ xs
take_all [] = refl
take_all (x ∷ xs) = ap (λ ys. x ∷ ys) (take_all xs)

module _ (ctz32 : ℕ → ℕ) (real : ℕ → ℕ) where
  items-IsTable : IsTable (items ctz32 real)
  unfolding items low_item ram_item clint_item htif_item plic_item
  items-IsTable = (
    (omega arith, omega arith),
    (inl (omega arith), (inl (omega arith), (inl (omega arith), (inl (omega arith), tt)))),
    (
      (omega arith, omega arith),
      (inr (omega arith), (inr (omega arith), (inr (omega arith), tt))),
      (
        (omega arith, omega arith),
        (inl (omega arith), (inl (omega arith), tt)),
        ((omega arith, omega arith), (inl (omega arith), tt), ((omega arith, omega arith), tt, tt)),
      ),
    ),
  )

  find_ram :
      (address n : ℕ)
      → ram_base_addr ≤ address
      → address + n < ram_base_addr + memory_size
      → find_item (items ctz32 real) address n ≡ some (ram_item ctz32 real)
  unfolding items ram_item
  find_ram address n low high =
      find_item-Among (items ctz32 real) (ram_item ctz32 real) address n items-IsTable
        (inr (inl refl)) (omega arith) low high

  pub board_write_ram :
      (x : State) (address : ℕ) (src : List ℕ)
      → ram_base_addr ≤ address
      → address + length src < ram_base_addr + memory_size
      → board_write ctz32 real x address src ≡ record {
        state = (x.0, record (x.1) { ram = write_at x.1.ram (address - ram_base_addr) src });
        bytes = [];
        ok = true;
      }
  unfolding board_write write_bytes in_ram settled
  board_write_ram x address src low high =
      let stored =
        memory_write-in_bounds ram_base_addr memory_size (omega arith) x.1.ram address src low
          high in
      rw (find_ram address (length src) low high, write_bytes) (unfold ram_item in rw stored refl)

  pub board_read_ram :
      (x : State) (address n : ℕ)
      → ram_base_addr ≤ address
      → address + n < ram_base_addr + memory_size
      → board_read ctz32 real x address n
        ≡ record { state = x; bytes = read_at x.1.ram n (address - ram_base_addr); ok = true }
  unfolding board_read read_bytes in_ram settled
  board_read_ram x address n low high =
      let loaded =
        memory_read-in_bounds ram_base_addr memory_size (omega arith) x.1.ram address n low high in
      rw (find_ram address n low high, read_bytes) (unfold ram_item in rw loaded refl)

-- In machine mode at 64 bits, with the rights of that mode for loads and stores too.
pub record IsBare (s : CpuState) : Type 0 where
  pub machine : s.priv ≡ 3
  pub own_rights : bit_and s.mstatus (2 ^ 17) ≡ 0
  pub wide : s.xlen ≡ 64

address_translate-bare :
    {M : Type 0} (read : M → ℕ → ℕ → Reply M) (write : M → ℕ → List ℕ → Reply M) (s : CpuState)
    (address access : ℕ) (m : M)
    → IsBare s
    → address_translate read write s address access m ≡ (m, physical address)
unfolding address_translate effective_priv
address_translate-bare read write s address access m b =
    ground (arith, b.machine, b.own_rights, b.wide)

-- An access at an address that is its own translation is one physical access.
vaddr_loop-direct :
    {M : Type 0} (translate : CpuState → ℕ → M → M × Translation) (bus : M → ℕ → ℕ → ℕ → Reply M)
    (fault_cause page_cause left : ℕ) (s : CpuState) (m : M) (address size : ℕ) (r : Reply M)
    → 0 < left
    → translate s address m ≡ (m, physical address)
    → bus m address 0 size ≡ r
    → r.ok ≡ true
    → vaddr_loop translate bus fault_cause page_cause left s m address 0 size
      ≡ record { cpu = s; memory = r.state; bytes = r.bytes; ok = true; defined = true }
unfolding vaddr_loop last_part
vaddr_loop-direct translate bus fault_cause page_cause zero s m address size r pos e answer ok =
    absurd (omega arith)
vaddr_loop-direct translate bus fault_cause page_cause (suc left) s m address size r pos e answer
      ok =
    let same : (address == address) ≡ true = ground arith in
    let unchanged : (translate s address m).0 ≡ m = ap (λ t. t.0) e in
    let direct : (translate s address m).1 ≡ physical address = ap (λ t. t.1) e in
    rw (direct, vaddr_loop) (rw (same, unchanged, answer, ok) refl)

module _ (ctz32 : ℕ → ℕ) (real : ℕ → ℕ) where
  pub write_ram :
      (s : CpuState) (m : Board) (address : ℕ) (src : List ℕ)
      → IsBare s
      → ram_base_addr ≤ address
      → address + length src < ram_base_addr + memory_size
      → write_vaddr (board_read ctz32 real) (board_write ctz32 real) s (s, m) address src ≡ record {
        cpu = s;
        memory = (s, record m { ram = write_at m.ram (address - ram_base_addr) src });
        bytes = [];
        ok = true;
        defined = true;
      }
  unfolding write_vaddr
  write_ram s m address src b low high =
      vaddr_loop-direct
        (λ s' va.
          address_translate (board_read ctz32 real) (board_write ctz32 real) s' va pte_w_mask)
        (λ m' p offset n. board_write ctz32 real m' p (take n (drop offset src))) cause_fault_store
        cause_store_page_fault (length src + 1) s (s, m) address (length src) _ (omega arith)
        (address_translate-bare (board_read ctz32 real) (board_write ctz32 real) s address
          pte_w_mask (s, m) b)
        (ap (board_write ctz32 real (s, m) address) (take_all src)
          ∙ board_write_ram ctz32 real (s, m) address src low high)
        refl

  pub read_ram :
      (s : CpuState) (m : Board) (address n : ℕ)
      → IsBare s
      → ram_base_addr ≤ address
      → address + n < ram_base_addr + memory_size
      → read_vaddr (board_read ctz32 real) (board_write ctz32 real) s (s, m) address n ≡ record {
        cpu = s;
        memory = (s, m);
        bytes = read_at m.ram n (address - ram_base_addr);
        ok = true;
        defined = true;
      }
  unfolding read_vaddr
  read_ram s m address n b low high =
      vaddr_loop-direct
        (λ s' va.
          address_translate (board_read ctz32 real) (board_write ctz32 real) s' va pte_r_mask)
        (λ m' p offset size. board_read ctz32 real m' p size) cause_fault_load cause_load_page_fault
        (n + 1) s (s, m) address n _ (omega arith)
        (address_translate-bare (board_read ctz32 real) (board_write ctz32 real) s address
          pte_r_mask (s, m) b)
        (board_read_ram ctz32 real (s, m) address n low high) refl
