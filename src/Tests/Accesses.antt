-- ===== src/Tests/Accesses.antt =====
-- The table of address ranges, RAM and virtual addresses.
use space_emu.Base.{ℕ, ◌^◌, ◌*◌, ◌≤◌, ◌≡◌, true}
use space_emu.Base.{refl, arith, some, List, [], ◌∷◌, inl}
use space_emu.Base.Bytes.{length}
use space_emu.Cpu.{CpuState}
use space_emu.Device.{Reply}
use space_emu.Iomap.{AddressItem, register_address_manager, address_item_count, find_item}
use space_emu.Iomap.Dispatch.{find_item-Among}
use space_emu.Iomap.Table.{IsTable, register_address_manager-IsTable}
use space_emu.Memory.{Buffer, memory_item, low_ram_size, memory_size, ram_base_addr}
use space_emu.Tests.{user}
use space_emu.Translate.{translate_action, sv_format, address_translate, pte_r_mask, pte_w_mask}
use space_emu.Translate.{pte_x_mask}
use space_emu.Translate.Walk.{Outcome, Visits, translate_action-Outcome}
use space_emu.Translate.Vaddr.{read_vaddr, write_vaddr, code_vaddr}
use space_emu.Translate.Vaddr.Answer.{Answered, accesses-Answered}

abbrev cleared : Buffer
cleared _ = 0

abbrev low_ram : AddressItem Buffer
low_ram = memory_item low_ram_size 0 true

abbrev ram : AddressItem Buffer
ram = memory_item memory_size ram_base_addr true

low_ram-IsTable : IsTable (low_ram ∷ [])
unfolding memory_item
low_ram-IsTable = ((omega arith, omega arith), tt, tt)

register_address_manager-IsTable_example :
    let t = register_address_manager cleared (low_ram ∷ []) ram in
    IsTable t.1 × (length t.1 ≤ address_item_count)
unfolding memory_item
register_address_manager-IsTable_example =
    register_address_manager-IsTable cleared (low_ram ∷ []) ram (omega arith, omega arith)
      low_ram-IsTable (omega arith)

find_item-Among_example : find_item (low_ram ∷ []) 0x1000 8 ≡ some low_ram
unfolding memory_item
find_item-Among_example =
    find_item-Among (low_ram ∷ []) low_ram 0x1000 8 low_ram-IsTable (inl refl) (omega arith)
      (omega arith) (omega arith)

-- A memory in which every read gives the same entry: a valid, readable and writable user's page.
abbrev read : ℕ → ℕ → ℕ → Reply ℕ
read m address size = record { state = m; bytes = 0x17 ∷ 0 ∷ 0 ∷ 0 ∷ 0 ∷ 0 ∷ 0 ∷ 0 ∷ []; ok = true }

abbrev write : ℕ → ℕ → List ℕ → Reply ℕ
write m address src = record { state = m; bytes = []; ok = true }

-- The processor in user mode, with Sv39.
abbrev paged : CpuState
paged = record user { satp = 8 * 2 ^ 60 }

translate_action-Outcome_example :
    Outcome paged 0 1 0x123
      (Visits read 0x123 3 0 5 0)
      (translate_action read write paged (sv_format read write paged 3 5 0x123 (2 ^ 1)) 0 0).1
translate_action-Outcome_example =
    translate_action-Outcome read write paged 2 5 0x123 1 0 0 (omega arith) (omega arith)

accesses-Answered_example :
    Answered
      (λ s' va. address_translate read write s' va pte_r_mask)
      paged
      5
      13
      (read_vaddr read write paged 0 0xffe 4)
    × Answered
        (λ s' va. address_translate read write s' va pte_w_mask)
        paged
        7
        15
        (write_vaddr read write paged 0 0xffe (1 ∷ 2 ∷ 3 ∷ 4 ∷ []))
    × Answered
        (λ s' va. address_translate read write s' va pte_x_mask)
        paged
        1
        12
        (code_vaddr read write paged 0 0xffe 4)
accesses-Answered_example = accesses-Answered read write paged 0 0xffe 4 (1 ∷ 2 ∷ 3 ∷ 4 ∷ [])
