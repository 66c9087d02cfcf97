-- ===== src/Service/Server/Bodies.antt =====
-- service/server/server.go: the bodies of the answers.
use lab_env.Common.{String, ◌++◌}
use lab_env.Common.Bytes.{Bytes, codes}

-- The body of GET /health; the environment's name is not escaped.
unfoldable pub health_body : Bytes → Bytes
health_body app_env =
    codes "{\"status\":\"ok\",\"app_env\":\"" ++ (app_env ++ codes "\",\"config_loaded\":true}")

-- The bodies of GET /.
unfoldable pub root_body : Bytes → Bytes
root_body app_env = codes "{\"status\":\"ok\",\"path\":\"/\",\"env\":\"" ++ (app_env ++ codes "\"}")

unfoldable pub error_body : Bytes
error_body = codes "{\"status\":\"error\",\"msg\":\"state write failed\"}"

-- The body of GET /slow.
unfoldable pub slow_body : Bytes
slow_body = codes "{\"status\":\"ok\",\"path\":\"/slow\",\"delay_seconds\":5}"

-- The body of GET /headers, of the headers of the request.
unfoldable pub headers_body : (String → Bytes) → Bytes
headers_body header =
    codes "{\"Host\":\""
    ++ (header "Host"
        ++ (codes "\",\"X-Forwarded-For\":\""
            ++ (header "X-Forwarded-For"
                ++ (codes "\",\"X-Forwarded-Proto\":\""
                    ++ (header "X-Forwarded-Proto"
                        ++ (codes "\",\"X-Real-IP\":\""
                            ++ (header "X-Real-IP"
                                ++ (codes "\",\"User-Agent\":\""
                                    ++ (header "User-Agent" ++ codes "\"}")))))))))

-- What `http.Error` writes for a request without hijacking, a method that is not allowed, and a
-- dropped request.
unfoldable pub no_hijack_body : Bytes
no_hijack_body = codes "server does not support hijacking\n"

unfoldable pub not_allowed_body : Bytes
not_allowed_body = codes "Method Not Allowed\n"

unfoldable pub drop_body : Bytes
drop_body = codes "{\"status\":\"error\",\"msg\":\"chaos drop\"}\n"
