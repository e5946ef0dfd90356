-- ===== src/Proxy/Request.antt =====
-- The proxy's view of a request: internal/authz/request.go and NormalizeRequest of
-- internal/authz/normalize.go. encoding/json's reading of the field operationName is a parameter,
-- "" where it fails; so are the parameters of the GraphQL parser (Graphql.antt).
use accessgate.Base.{String, ◌==◌, Bool, Option, not, ◌&&◌, none, some, if◌then◌else◌}
use Prim.Native.Char.{Char}
use accessgate.Base.Text.{trim_prefix, cut_last}
use accessgate.Proxy.Graphql.{extract_operation}
use accessgate.Base.Dict.{Dict, lookup}

pub record Request : Type 0 where
  pub protocol : String
  pub method : String
  pub path : String
  pub headers : Dict String
  pub cookies : Dict String
  pub body : String
  pub graphql_operation : String
  pub graphql_operation_type : String
  pub grpc_service : String
  pub grpc_method : String
  pub remote_addr : String

-- m[key], "" for a missing key.
unfoldable pub value_of : Dict String → String → String
value_of m key = elim (lookup key m) [ none ↦ "" | some v ↦ v ]

-- The service and the method of a path /package.Service/Method.
unfoldable pub grpc_parts : String → String × String
grpc_parts p =
    if p == ""
    then ("", "")
    else elim (cut_last b'/' (trim_prefix p "/")) [ none ↦ ("", "") | some parts ↦ parts ]

module _ (is_digit : Char → Bool) (operation_field : String → String)
    (read_envelope : String → Option (String × String)) where
  -- The operation and its type.
  unfoldable pub graphql_of : Dict String → String → String × String
  unfolding value_of
  graphql_of headers body =
      let name = value_of headers "X-Apollo-Operation-Name" in
      if not (name == "")
      then (name, "")
      else if body == ""
      then ("", "")
      else if not (operation_field body == "")
      then (operation_field body, "")
      else extract_operation is_digit read_envelope body

  unfoldable pub normalize_request :
      String → String → String → Dict String → Dict String → String → Request
  unfolding graphql_of grpc_parts
  normalize_request protocol method path headers cookies body =
      let graphql = graphql_of headers body in
      let service = value_of headers "X-Grpc-Service" in
      let rpc = value_of headers "X-Grpc-Method" in
      let parts =
        if service == "" && rpc == ""
        then grpc_parts (value_of headers ":path")
        else (service, rpc) in
      record {
        protocol = protocol;
        method = method;
        path = path;
        headers = headers;
        cookies = cookies;
        body = body;
        graphql_operation = graphql.0;
        graphql_operation_type = graphql.1;
        grpc_service = parts.0;
        grpc_method = parts.1;
        remote_addr = "";
      }
