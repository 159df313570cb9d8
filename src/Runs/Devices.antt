-- ===== src/Runs/Devices.antt =====
-- The serial port, the socket and the random numbers of the processor.
use kassandra_service.Common.{refl, [], ◌∷◌, arith}
use kassandra_service.Framing.{write_frame}
use kassandra_service.Framing.Relay.{Reads}
use kassandra_service.Serial.{Looks}
use kassandra_service.Serial.Frames.{serial, serial-frames-Reads}
use kassandra_service.Runs.Frames.{shifted, shifted-IsCobs, shifted-IsInverse, as_text}

-- A frame of two bytes, then one of one, with looks in vain between them.
abbrev looks : Looks
looks = (0, 3) ∷ (1, 9) ∷ (97, 6) ∷ (96, 6) ∷ (1, 0) ∷ (33, 4) ∷ (32, 4) ∷ (1, 0) ∷ []

serial-frames-Reads_example :
    Reads serial shifted (λ m. m) as_text 5 ((8 ∷ 5 ∷ []) ∷ (3 ∷ []) ∷ []) looks
unfolding write_frame
serial-frames-Reads_example =
    serial-frames-Reads shifted shifted-IsCobs shifted-IsInverse (λ m. m) as_text (λ m. refl) 5
      ((8 ∷ 5 ∷ []) ∷ (3 ∷ []) ∷ []) looks
      ((omega arith, omega arith), ((omega arith, omega arith), tt)) refl
