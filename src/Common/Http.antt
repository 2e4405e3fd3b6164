-- ===== src/Common/Http.antt =====
-- What stands around the handlers: src/common/guards, src/common/filters/http-exception.filter.ts and
-- src/common/interceptors/response.interceptor.ts. Texts of messages are left out, but for how a list
-- of them is kept.
use idea_project.Base.{
  ℕ, Bool, Option, none, some, List, [], ◌∷◌, includes, if◌then◌else◌, ◌==◌, nat_eq,
}
use idea_project.Schema.{UserRole, user_role_eq}
use idea_project.Common.Errors.{
  Error, app, ErrorCode, HttpStatus, AuthenticatedUser, forbidden_exception, unauthorized_exception,
}
use idea_project.Common.Monad.{Result, ok, err}
use idea_project.Common.Pages.{PaginatedResult}

-- `RolesGuard.canActivate`, given what `@Roles` of the handler or the class says.
unfoldable pub roles_can_activate :
    Option (List UserRole) → Option AuthenticatedUser → Result (Unit {0})
roles_can_activate none user = ok tt
roles_can_activate (some []) user = ok tt
roles_can_activate (some (r ∷ rs)) none = err (forbidden_exception ErrorCode.auth_forbidden)
roles_can_activate (some (r ∷ rs)) (some user) =
    if includes (r ∷ rs) user.role
    then ok tt
    else err (forbidden_exception ErrorCode.auth_forbidden)

-- What passport's strategy finds out about a request: an error, no user, or a user.
pub data Verdict : Type 0 where
  failed no_user : Verdict
  user : AuthenticatedUser → Verdict

-- `JwtAuthGuard.handleRequest`
unfoldable pub handle_request : Verdict → Result AuthenticatedUser
handle_request Verdict.failed = err (unauthorized_exception ErrorCode.auth_unauthorized)
handle_request Verdict.no_user = err (unauthorized_exception ErrorCode.auth_unauthorized)
handle_request (Verdict.user u) = ok u

abbrev known : Result AuthenticatedUser → Result (Option AuthenticatedUser)
known (ok u) = ok (some u)
known (err e) = err e

-- `JwtAuthGuard.canActivate`, with the user that the handler sees: none for a `@Public` handler.
unfoldable pub jwt_can_activate : Bool → Verdict → Result (Option AuthenticatedUser)
jwt_can_activate is_public verdict = if is_public then ok none else known (handle_request verdict)

-- The payload of the access token, and `JwtStrategy.validate`.
pub record JwtPayload : Type 0 where
  pub sub : ℕ
  pub email : ℕ
  pub role : UserRole

unfoldable pub validate : JwtPayload → AuthenticatedUser
validate payload = record { id = payload.sub; email = payload.email; role = payload.role }

-- The body of an `HttpException`: an object with `error`, an object with `message`, or another.
pub data Body : Type 0 where
  error_body : ErrorCode → Body
  message_body other_body : Body

-- What is thrown: an `HttpException` with its status, or anything else.
pub data Exception : Type 0 where
  http : ℕ → Body → Exception
  other : Exception

unfoldable pub status_number : HttpStatus → ℕ
status_number HttpStatus.bad_request = 400
status_number HttpStatus.unauthorized = 401
status_number HttpStatus.forbidden = 403
status_number HttpStatus.not_found = 404
status_number HttpStatus.conflict = 409
status_number HttpStatus.too_many_requests = 429

-- An `AppException` is an `HttpException` with its code in the body; the rest are plain errors.
unfoldable pub thrown : Error → Exception
thrown (app code status) = Exception.http (status_number status) (error_body code)
thrown Error.failure = Exception.other
thrown Error.record_not_found = Exception.other
thrown Error.unique_violation = Exception.other
thrown Error.foreign_key_violation = Exception.other

-- `HttpExceptionFilter.normalize`: the status and the code of the answer.
unfoldable pub normalize : Exception → ℕ × ErrorCode
normalize (Exception.http status (error_body code)) = (status, code)
normalize (Exception.http status message_body) =
    (status, if status == 400 then ErrorCode.validation_error else ErrorCode.internal_error)
normalize (Exception.http status other_body) = (status, ErrorCode.internal_error)
normalize Exception.other = (500, ErrorCode.internal_error)

-- What a handler returns, as the interceptor tells it apart, and what is sent.
pub data HandlerResult (A : Type 0) : Type 0 where
  nothing : HandlerResult A
  with_error : A → HandlerResult A
  paginated : PaginatedResult A → HandlerResult A
  value : A → HandlerResult A

pub data Sent (A : Type 0) : Type 0 where
  as_is : A → Sent A
  page : PaginatedResult A → Sent A
  data_of : Option A → Sent A

-- `ResponseInterceptor.intercept`
unfoldable pub intercept : {A : Type 0} → HandlerResult A → Sent A
intercept nothing = data_of none
intercept (with_error a) = as_is a
intercept (paginated p) = page p
intercept (value a) = data_of (some a)
