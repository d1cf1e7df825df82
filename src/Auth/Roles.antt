-- ===== src/Auth/Roles.antt =====
-- contexts/auth/types.ts: `RepoRole`, and the rank by which transfer and versioning compare roles.
use deltix_server.Common.{ℕ}

pub data RepoRole : Type 0 where
  reader writer admin : RepoRole

-- `ROLE_RANK`.
unfoldable pub role_rank : RepoRole → ℕ
role_rank reader = 1
role_rank writer = 2
role_rank admin = 3
