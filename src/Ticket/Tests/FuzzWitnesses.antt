-- ===== src/Ticket/Tests/FuzzWitnesses.antt =====
-- The fuzz targets on a concrete input.
use octraban_contract.Common.{ℕ, zero, suc, ◌≡◌, ◌≢◌, true, false, List, [], ◌∷◌, refl, arith}
use octraban_contract.Common.Bytes.{i128_at}
use octraban_contract.Host.Script.{play, passes, mock_all_auths}
use octraban_contract.Ticket.Client.{contract}
use octraban_contract.Ticket.Fuzz.Targets.{
  Cast, fuzz_mint, fuzz_transfer, fuzz_verify, fuzz_full_lifecycle,
}
use octraban_contract.Ticket.Fuzz.Passing.{fuzz_targets_pass}
use octraban_contract.Ticket.Tests.Model.{host, fresh}

abbrev cast : Cast
cast = record { organizer = 1; buyer = 2; new_owner = 3; impostor = 4 }

abbrev zeros : ℕ → List ℕ → List ℕ
zeros zero rest = rest
zeros (suc n) rest = 0 ∷ zeros n rest

-- The price of `fuzz_mint` is `i128::MIN`.
abbrev lowest : List ℕ
lowest = zeros 23 (128 ∷ 0 ∷ [])

impostor_differs : cast.impostor ≢ cast.organizer
impostor_differs = omega arith

fuzz_targets_pass_example :
    (passes (play (contract host (mock_all_auths 7)) (fuzz_transfer cast lowest) fresh) ≡ true)
    × (passes (play (contract host (mock_all_auths 7)) (fuzz_verify cast lowest) fresh) ≡ true)
    × (passes (play (contract host (mock_all_auths 7)) (fuzz_mint cast lowest) fresh) ≡ false)
    × (passes (play (contract host (mock_all_auths 7)) (fuzz_full_lifecycle cast lowest) fresh)
        ≡ true)
unfolding i128_at
fuzz_targets_pass_example = fuzz_targets_pass host cast 7 lowest fresh refl impostor_differs
