-- ===== src/Shared/Filters.antt =====
-- What becomes of a Prisma error at the edge: src/shared/filters/prisma-exception.filter.ts.
pub mod Unreached
use layer_backend.Base.{ℕ, String, Option, none, some, str_eq, if◌then◌else◌}
use layer_backend.Shared.Errors.{Exception}

abbrev pub does_not_exist : Exception
does_not_exist = Exception.http 404 none "Requested record does not exist"

abbrev pub already_exists : Exception
already_exists = Exception.http 409 none "Record already exists"

abbrev pub related_missing : Exception
related_missing = Exception.http 409 none "Related record does not exist"

-- `toHttpException`.
unfoldable pub to_http_exception : String → Option Exception
to_http_exception code =
    if str_eq code "P2025"
    then some does_not_exist
    else if str_eq code "P2002"
    then some already_exists
    else if str_eq code "P2003"
    then some related_missing
    else none

-- What `catch` hands to Nest's own filter: the mapped error, or the Prisma error as it is.
unfoldable pub filtered : String → String → Exception
filtered code message = elim (to_http_exception code) [
  | none ↦ Exception.prisma code message
  | some e ↦ e
]

-- `@Catch(PrismaClientKnownRequestError)`: no other exception reaches the filter.
unfoldable pub at_edge : Exception → Exception
unfolding filtered
at_edge (Exception.prisma code message) = filtered code message
at_edge e = e
