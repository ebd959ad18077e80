-- ===== src/Register/Tests.antt =====
-- The theorems on registers at a concrete node.
use Prim.Native.String.{String}
use snapemu_workflow.Base.{ℕ, ◌^◌, ◌<◌, ◌≡◌, ◌≢◌, refl, inl, Option, none, some, [], ◌∷◌, arith, ok}
use snapemu_workflow.Base.Dict.{empty}
use snapemu_workflow.Ids.Digits.{hex}
use snapemu_workflow.Redis.{Str, codes, Entry, absent, hset_args}
use snapemu_workflow.Redis.Memory.{memory, memory-IsRedis}
use snapemu_workflow.Redis.Hash.{Struct}
use snapemu_workflow.Redis.Hash.Merge.{Fits, merge, does_fit→Fits}
use snapemu_workflow.Register.{
  node_info, node_info_of, NodeRow, eui_key, addr_key, register, unregister, load_by_eui,
  load_by_addr, update_by_addr,
}
use snapemu_workflow.Register.Nodes.{register-load}
use snapemu_workflow.Register.States.{
  IsLinked, Step, start, next, unregisters, updates_by_addr, Reach-IsLinked,
}
use snapemu_workflow.Base.{List, All}
use snapemu_workflow.Register.Services.{DeviceRow, with_device}
use snapemu_workflow.Register.Services.Synced.{IsRow}

abbrev one : String → Option Str
one c = some (codes "1")

abbrev node : NodeRow
node = record { dev_eui = 0x1122334455667788; dev_addr = 0x01020304; column = one }

abbrev info : Struct
info = node_info_of one one

info-Fits : Fits node_info info
unfolding node_info_of
info-Fits = does_fit→Fits node_info (node_info_of one one) refl

abbrev nothing : Str → Entry
nothing k = absent

nothing-IsLinked : IsLinked hex memory nothing
nothing-IsLinked = (λ x h. inl refl, λ a h. tt)

register-load_example :
    (t : Str → Entry) × (register hex memory info 1 2 nothing ≡ ok t)
    × (load_by_eui hex memory 1 t ≡ ok (some (merge info empty)))
    × (load_by_addr hex memory 2 t ≡ ok (some (merge info empty)))
    × ((x : ℕ) → x < 256 ^ 8 → 1 ≢ x → t (eui_key hex x) ≡ absent)
    × ((a : ℕ) → a < 256 ^ 4 → 2 ≢ a → t (addr_key hex a) ≡ absent)
register-load_example =
    register-load hex memory memory-IsRedis info 1 2 empty nothing (omega arith) (omega arith)
      info-Fits refl

abbrev charged : Str → Entry
charged = memory.hset (addr_key hex 2) (("charge", codes "true") ∷ []) nothing

charges : Step hex memory nothing charged
unfolding update_by_addr hset_args
charges = updates_by_addr 2 "charge" (codes "true") (omega arith) refl

Reach-IsLinked_example : IsLinked hex memory (unregister hex memory 1 2 charged)
Reach-IsLinked_example =
    Reach-IsLinked hex memory memory-IsRedis nothing (unregister hex memory 1 2 charged)
      (next (next start charges) (unregisters 1 2 (omega arith) (omega arith) refl))
      nothing-IsLinked

abbrev rows : List (NodeRow × Option DeviceRow)
rows = (node, some one) ∷ (node, none) ∷ []

rows-IsRow : All IsRow (with_device rows)
unfolding with_device
rows-IsRow = ((omega arith, omega arith, info-Fits), tt)
