-- ===== src/Shared/Layers.antt =====
-- The layers of services that an exception passes: handleExceptionCode in src/shared/utils/utils.ts,
-- and the filter at the edge in src/shared/filters/prisma-exception.filter.ts.
use layer_backend.Base.{ℕ, zero, suc, String, Option, none, some, List, [], ◌∷◌, ◌≡◌, refl, ◌∙◌, ap}
use layer_backend.Shared.Errors.{Exception, bad_request, handle_exception_code}
use layer_backend.Shared.Filters.{at_edge}

-- The exception that leaves a chain of services, each of which catches and throws it again.
unfoldable pub through : List String → Exception → Exception
through [] e = e
through (s ∷ ss) e = through ss (handle_exception_code e s)

-- What is left of the status of an exception: a 400 for one that is no HTTP exception.
abbrev pub status_left : Exception → ℕ
status_left (Exception.http status code message) = status
status_left (Exception.http_text status message) = status
status_left _ = bad_request

-- What is left of its code: none for one that has no code, or the code zero.
abbrev pub code_left : Exception → Option ℕ
code_left (Exception.http status none message) = none
code_left (Exception.http status (some zero) message) = none
code_left (Exception.http status (some (suc n)) message) = some (suc n)
code_left _ = none

-- The message of the outermost service.
abbrev pub outermost : String → List String → String
outermost s [] = s
outermost s (t ∷ ts) = outermost t ts

one_layer :
    (e : Exception) (s : String)
    → handle_exception_code e s ≡ Exception.http (status_left e) (code_left e) s
unfolding handle_exception_code
one_layer (Exception.http status none message) s = refl
one_layer (Exception.http status (some zero) message) s = refl
one_layer (Exception.http status (some (suc n)) message) s = refl
one_layer (Exception.http_text status message) s = refl
one_layer (Exception.ecom_unavailable message attempts) s = refl
one_layer (Exception.prisma code message) s = refl
one_layer (Exception.failure message) s = refl

code_left-twice :
    (e : Exception) (s : String)
    → code_left (Exception.http (status_left e) (code_left e) s) ≡ code_left e
code_left-twice (Exception.http status none message) s = refl
code_left-twice (Exception.http status (some zero) message) s = refl
code_left-twice (Exception.http status (some (suc n)) message) s = refl
code_left-twice (Exception.http_text status message) s = refl
code_left-twice (Exception.ecom_unavailable message attempts) s = refl
code_left-twice (Exception.prisma code message) s = refl
code_left-twice (Exception.failure message) s = refl

through_lem :
    (s : String) (ss : List String) (e : Exception)
    → through (s ∷ ss) e ≡ Exception.http (status_left e) (code_left e) (outermost s ss)
unfolding through
through_lem s [] e = one_layer e s
through_lem s (t ∷ ts) e =
    ap (λ x. through (t ∷ ts) x) (one_layer e s)
    ∙ through_lem t ts (Exception.http (status_left e) (code_left e) s)
    ∙ ap (λ c. Exception.http (status_left e) c (outermost t ts)) (code_left-twice e s)

-- An exception that has passed at least one service is an HTTP exception with the message of the
-- outermost service. It has the status and the code that it was thrown with, where a code of zero is
-- dropped; an error that was no HTTP exception, such as one of Prisma, has become a 400 without a
-- code. The filter at the edge leaves it as it is.
pub through-at_edge :
    (s : String) (ss : List String) (e : Exception)
    → (through (s ∷ ss) e ≡ Exception.http (status_left e) (code_left e) (outermost s ss))
      × (at_edge (through (s ∷ ss) e) ≡ through (s ∷ ss) e)
unfolding at_edge
through-at_edge s ss e = (through_lem s ss e, rw (through_lem s ss e) refl)
