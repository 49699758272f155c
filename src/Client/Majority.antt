-- ===== src/Client/Majority.antt =====
-- The numbers of servers that the source computes in floating point, exact up to 2^24 servers.
use colas.Common.{ℕ, ◌+◌, ◌/◌, ◌%◌, ◌≤◌, ◌<◌, ◌≡◌, arith}

-- `ceil(((float)num_servers+1)/2)`
unfoldable pub majority : ℕ → ℕ
majority num_servers = (num_servers + 1 + 1) / 2

-- `ceil((float)num_servers + 1)/2`, the K of `create_EncodeData` and `get_server_args` of
-- src/utilities/helpers.c: the sum is rounded up, and the quotient is cut off.
unfoldable pub code_dimension : ℕ → ℕ
code_dimension num_servers = (num_servers + 1) / 2

-- Two majorities have more members together than there are servers; a majority is not empty, and
-- of at least one server it is no more than all.
pub majority_overlap :
    (n : ℕ) → (n < majority n + majority n) × (0 < majority n) × (0 < n → majority n ≤ n)
unfolding majority
majority_overlap n = (omega arith, omega arith, λ h. omega arith)

-- The K of the helpers is the majority for an odd number of servers, and one less for an even one.
pub code_dimension-majority :
    (n : ℕ)
    → (n % 2 ≡ 1 → code_dimension n ≡ majority n) × (n % 2 ≡ 0 → code_dimension n + 1 ≡ majority n)
unfolding majority code_dimension
code_dimension-majority n = (λ h. omega arith, λ h. omega arith)
