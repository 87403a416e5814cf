-- ===== src/Keyboard/Tests.antt =====
-- The keyboard of Xernel/kernel/src/arch/x86_64/keyboard.rs, with the keys of its `selftest`.
use xernel.Prelude.{take, drop, ◌≡◌, refl, [], ◌∷◌, ◌++◌}
use xernel.Keyboard.{new, read_nb, irq_handler}
use xernel.Keyboard.Queue.{contents, IsValid, new-IsValid}
use xernel.Keyboard.Typing.{irqs, typed, read_nb-irqs}

-- `selftest`: the keys of "hi\\n" come out as these bytes.
selftest : (read_nb (irqs new (0x23 ∷ 0x17 ∷ 0x1C ∷ [])) 8).0 ≡ 104 ∷ 105 ∷ 10 ∷ []
unfolding new read_nb irq_handler
selftest = refl

read_nb-irqs_example :
    let (bytes, left) = read_nb (irqs new (0x23 ∷ 0x17 ∷ 0x1C ∷ [])) 2 in
    IsValid left
    × (bytes ≡ take 2 (take 255 (contents new ++ typed (0x23 ∷ 0x17 ∷ 0x1C ∷ []))))
    × (contents left ≡ drop 2 (take 255 (contents new ++ typed (0x23 ∷ 0x17 ∷ 0x1C ∷ []))))
read_nb-irqs_example = read_nb-irqs new (0x23 ∷ 0x17 ∷ 0x1C ∷ []) 2 new-IsValid.0
