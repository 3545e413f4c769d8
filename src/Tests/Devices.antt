-- ===== src/Tests/Devices.antt =====
-- The DMA unit, the keypad and the queue on concrete states.
use advanced_slop.Base.{
  ℕ, zero, suc, ◌+◌, ◌≡◌, ◌<◌, refl, arith, inl, inr, [], ◌∷◌, ◌++◌, false, get_or,
}
use advanced_slop.Dma.{default_channel}
use advanced_slop.Dma.Control.{Bus, dma_on_event}
use advanced_slop.Dma.Ready.{IsReady}
use advanced_slop.Dma.Invariant.{AllReady, KeepsReady, dma_on_event-AllReady}
use advanced_slop.Input
use advanced_slop.Input.{input_process_hotkeys, hit, get_key_input, input_process_hotkeys_edges}
use advanced_slop.Cpu.Interrupts.{keypad, cpu_send_interrupt, cpu_set_irf}
use advanced_slop.Emu.{Emu}
use advanced_slop.FixedFifo.{FixedFifo, push_back, pop_front, front}
use advanced_slop.FixedFifo.Queue.{contents, IsFifo}
use advanced_slop.FixedFifo.Refines.{contents-push_back, contents-pop_front}
use advanced_slop.Tests.{machine}

machine_ready : AllReady machine
unfolding IsReady
machine_ready = record { size = refl; ready = ready }
  where
    ready : (n : ℕ) → n < 4 → IsReady n (get_or machine.dma n default_channel)
    ready zero h = (omega arith, inl refl)
    ready (suc zero) h = (omega arith, inr (omega arith, omega arith))
    ready (suc (suc zero)) h = (omega arith, inl refl)
    ready (suc (suc (suc zero))) h = (omega arith, inl refl)
    ready (suc (suc (suc (suc n)))) h = absurd (omega arith)

-- A memory that counts its writes.
abbrev counting_bus : Bus ℕ
counting_bus = record {
  read = λ wide addr e. (addr, e);
  write = λ wide addr value e. record e { rest = e.rest + 1 };
  in_shm = λ addr e. false;
  read_multiple = λ wide addr count e. (addr ∷ [], e);
  read_fixed = λ wide addr count e. (addr ∷ [], e);
  write_multiple = λ wide addr s count e. record e { rest = e.rest + count };
  write_fixed = λ wide addr s count e. record e { rest = e.rest + count };
}

counting_bus-KeepsReady : KeepsReady counting_bus
counting_bus-KeepsReady = record {
  read = λ wide addr e all. all;
  write = λ wide addr value e all. record { size = all.size; ready = all.ready };
  read_multiple = λ wide addr count e all. all;
  read_fixed = λ wide addr count e all. all;
  write_multiple = λ wide addr s count e all. record { size = all.size; ready = all.ready };
  write_fixed = λ wide addr s count e all. record { size = all.size; ready = all.ready };
}

-- The sound channel's transfer.
dma_on_event-AllReady_example : AllReady (dma_on_event counting_bus 1 machine)
dma_on_event-AllReady_example =
    dma_on_event-AllReady counting_bus counting_bus-KeepsReady 1 machine (omega arith) machine_ready

-- A and Start are pressed, and either raises the interrupt.
abbrev keys : Input.Input
keys = record { key_input = 0x3ff; key_cnt = 0x4009; key_map = 0x3f6; prev_keypad_irq = false }

-- The game acknowledges the interrupt between the frames.
abbrev acknowledged : Emu ℕ
acknowledged = cpu_set_irf 0xffff_ffff 0x1000 machine

input_process_hotkeys_edges_example :
    let (held, raised) = input_process_hotkeys (keys, machine) in
    let (up, quiet) = input_process_hotkeys (record held { key_map = 0x3ff }, acknowledged) in
    (raised ≡ cpu_send_interrupt keypad machine)
    × (input_process_hotkeys (held, acknowledged) ≡ (held, acknowledged))
    × (quiet ≡ acknowledged)
    × ((input_process_hotkeys (record up { key_map = 0x3f6 }, acknowledged)).1
        ≡ cpu_send_interrupt keypad acknowledged)
unfolding hit get_key_input
input_process_hotkeys_edges_example =
    input_process_hotkeys_edges keys 0x3ff machine acknowledged acknowledged refl refl refl refl

-- Two elements in a ring of three slots, across its end.
abbrev two_items : FixedFifo ℕ
two_items = record { start = 2; len = 2; end = 1; fifo = 20 ∷ 0 ∷ 10 ∷ [] }

two_items-IsFifo : IsFifo 3 0 two_items
two_items-IsFifo = record {
  ring = refl;
  start_within = omega arith;
  len_within = omega arith;
  ends = refl;
}

contents-push_back_example :
    IsFifo 3 0 (push_back 3 30 two_items)
    × (contents 3 0 (push_back 3 30 two_items) ≡ contents 3 0 two_items ++ (30 ∷ []))
contents-push_back_example =
    contents-push_back 3 0 (omega arith) two_items two_items-IsFifo 30 (omega arith)

contents-pop_front_example :
    IsFifo 3 0 (pop_front 3 two_items)
    × (contents 3 0 two_items ≡ front 3 0 two_items ∷ contents 3 0 (pop_front 3 two_items))
contents-pop_front_example =
    contents-pop_front 3 0 (omega arith) two_items two_items-IsFifo (omega arith)
