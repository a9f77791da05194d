-- ===== src/Explorer/UnitTests/Pages.antt =====
-- explorer/src/lib.rs, `mod tests`: pagination.
use octraban_contract.Common.{
  ℕ, zero, suc, ◌+◌, Bool, true, ◌&&◌, List, [], ◌∷◌, ◌++◌, ◌==◌, length, if◌then◌else◌, ⊤,
}
use octraban_contract.Host.Script.{◌>>=◌, ◌>>◌, call, finish, fail, client, assert}
use octraban_contract.Explorer.Types.{DecodedEvent, max_page_size}
use octraban_contract.Explorer.Contract.{Call}
use octraban_contract.Explorer.Client.{ExplorerScript}
use octraban_contract.Explorer.UnitTests.Setup.{admin, times, opened, submitted}

abbrev pub test_get_events_rejects_zero_limit : ExplorerScript ⊤
test_get_events_rejects_zero_limit = do opened 0; _ ← client (Call.get_events 0 0); finish tt

abbrev pub test_get_events_clamps_limit_to_max_page_size : ExplorerScript ⊤
test_get_events_clamps_limit_to_max_page_size = do
  opened 5
  times 5 (submitted admin 25)
  page ← client (Call.get_events 0 (max_page_size + 1000))
  assert (length page == 5)

abbrev seqs : List DecodedEvent → List ℕ
seqs [] = []
seqs (e ∷ es) = e.seq ∷ seqs es

-- `page.get(page.len() - 1).unwrap().seq + 1`, for a page that begins with `e`.
abbrev past_last : DecodedEvent → List DecodedEvent → ℕ
past_last e [] = e.seq + 1
past_last e (x ∷ xs) = past_last x xs

-- The loop of the test, with at most `fuel` pages; it fails if they are not enough.
abbrev all_seqs : ℕ → ℕ → List ℕ → ExplorerScript (List ℕ)
all_seqs zero cursor out = fail
all_seqs (suc fuel) cursor out = call (Call.get_events cursor 3) λ page. elim page [
  | [] ↦ finish out
  | e ∷ es ↦ all_seqs fuel (past_last e es) (out ++ (e.seq ∷ seqs es))
]

abbrev count : ℕ → List ℕ → ℕ
count n [] = 0
count n (x ∷ xs) = (if x == n then 1 else 0) + count n xs

-- Every number below `k` is there exactly once.
abbrev each_once : ℕ → List ℕ → Bool
each_once zero xs = true
each_once (suc k) xs = (count k xs == 1) && each_once k xs

abbrev pub test_get_events_paging_returns_each_event_exactly_once : ExplorerScript ⊤
test_get_events_paging_returns_each_event_exactly_once = do
  opened 10
  times 10 (submitted admin 26)
  found ← all_seqs 20 0 []
  assert (length found == 10)
  assert (each_once 10 found)
