-- ===== src/TcpServer/Reply.antt =====
-- slaves/test/reply.hpp and slaves/test/reply.cpp: the replies of the server as they are written to a
-- socket.
pub mod Read
pub mod Stock
use robotd.Common.{ℕ, Bytes, codes, List, [], ◌∷◌, ◌++◌, length}
use robotd.Common.Decimal.{to_string}

-- `status_type`. No other number is ever stored in a reply, so that the `default` branches of
-- `to_buffer` and `to_string` are never taken.
pub data Status : Type 0 where
  ok created accepted no_content : Status
  multiple_choices moved_permanently moved_temporarily not_modified : Status
  bad_request unauthorized forbidden not_found : Status
  internal_server_error not_implemented bad_gateway service_unavailable : Status

abbrev pub number : Status → ℕ
number ok = 200
number created = 201
number accepted = 202
number no_content = 204
number multiple_choices = 300
number moved_permanently = 301
number moved_temporarily = 302
number not_modified = 304
number bad_request = 400
number unauthorized = 401
number forbidden = 403
number not_found = 404
number internal_server_error = 500
number not_implemented = 501
number bad_gateway = 502
number service_unavailable = 503

-- `status_strings::to_buffer`
unfoldable pub to_buffer : Status → Bytes
to_buffer ok = codes "HTTP/1.0 200 OK\r\n"
to_buffer created = codes "HTTP/1.0 201 Created\r\n"
to_buffer accepted = codes "HTTP/1.0 202 Accepted\r\n"
to_buffer no_content = codes "HTTP/1.0 204 No Content\r\n"
to_buffer multiple_choices = codes "HTTP/1.0 300 Multiple Choices\r\n"
to_buffer moved_permanently = codes "HTTP/1.0 301 Moved Permanently\r\n"
to_buffer moved_temporarily = codes "HTTP/1.0 302 Moved Temporarily\r\n"
to_buffer not_modified = codes "HTTP/1.0 304 Not Modified\r\n"
to_buffer bad_request = codes "HTTP/1.0 400 Bad Request\r\n"
to_buffer unauthorized = codes "HTTP/1.0 401 Unauthorized\r\n"
to_buffer forbidden = codes "HTTP/1.0 403 Forbidden\r\n"
to_buffer not_found = codes "HTTP/1.0 404 Not Found\r\n"
to_buffer internal_server_error = codes "HTTP/1.0 500 Internal Server Error\r\n"
to_buffer not_implemented = codes "HTTP/1.0 501 Not Implemented\r\n"
to_buffer bad_gateway = codes "HTTP/1.0 502 Bad Gateway\r\n"
to_buffer service_unavailable = codes "HTTP/1.0 503 Service Unavailable\r\n"

-- `stock_replies::to_string`
unfoldable pub stock_content : Status → Bytes
stock_content ok = codes ""
stock_content created =
    codes "<html><head><title>Created</title></head><body><h1>201 Created</h1></body></html>"
stock_content accepted =
    codes "<html><head><title>Accepted</title></head><body><h1>202 Accepted</h1></body></html>"
stock_content no_content =
    codes "<html><head><title>No Content</title></head><body><h1>204 Content</h1></body></html>"
stock_content multiple_choices =
    codes "<html>"
    ++ codes "<head><title>Multiple Choices</title></head>"
    ++ codes "<body><h1>300 Multiple Choices</h1></body>"
    ++ codes "</html>"
stock_content moved_permanently =
    codes "<html>"
    ++ codes "<head><title>Moved Permanently</title></head>"
    ++ codes "<body><h1>301 Moved Permanently</h1></body>"
    ++ codes "</html>"
stock_content moved_temporarily =
    codes "<html>"
    ++ codes "<head><title>Moved Temporarily</title></head>"
    ++ codes "<body><h1>302 Moved Temporarily</h1></body>"
    ++ codes "</html>"
stock_content not_modified =
    codes "<html>"
    ++ codes "<head><title>Not Modified</title></head>"
    ++ codes "<body><h1>304 Not Modified</h1></body>"
    ++ codes "</html>"
stock_content bad_request =
    codes "<html>"
    ++ codes "<head><title>Bad Request</title></head>"
    ++ codes "<body><h1>400 Bad Request</h1><br>"
    ++ codes "<h2>MOTHEROFGOD! It is C++ http-server!</h2>"
    ++ codes
        "<img src=http://www.hdwallpapers.net/images/mother-of-god-meme-wallpaper-for-ipad-4-87-589.jpg height=\"255\">"
    ++ codes "</body></html>"
stock_content unauthorized =
    codes "<html>"
    ++ codes "<head><title>Unauthorized</title></head>"
    ++ codes "<body><h1>401 Unauthorized</h1></body>"
    ++ codes "</html>"
stock_content forbidden =
    codes "<html>"
    ++ codes "<head><title>Forbidden</title></head>"
    ++ codes "<body><h1>403 Forbidden</h1></body>"
    ++ codes "</html>"
stock_content not_found =
    codes "<html>"
    ++ codes "<head><title>Not Found</title></head>"
    ++ codes "<body><h1>404 Not Found</h1></body>"
    ++ codes "</html>"
stock_content internal_server_error =
    codes "<html>"
    ++ codes "<head><title>Internal Server Error</title></head>"
    ++ codes "<body><h1>500 Internal Server Error</h1></body>"
    ++ codes "</html>"
stock_content not_implemented =
    codes "<html>"
    ++ codes "<head><title>Not Implemented</title></head>"
    ++ codes "<body><h1>501 Not Implemented</h1></body>"
    ++ codes "</html>"
stock_content bad_gateway =
    codes "<html>"
    ++ codes "<head><title>Bad Gateway</title></head>"
    ++ codes "<body><h1>502 Bad Gateway</h1></body>"
    ++ codes "</html>"
stock_content service_unavailable =
    codes "<html>"
    ++ codes "<head><title>Service Unavailable</title></head>"
    ++ codes "<body><h1>503 Service Unavailable</h1></body>"
    ++ codes "</html>"

pub record Header : Type 0 where
  pub name : Bytes
  pub value : Bytes

pub record Reply : Type 0 where
  pub status : Status
  pub headers : List Header
  pub content : Bytes

abbrev pub crlf : Bytes
crlf = 13 ∷ 10 ∷ []

abbrev pub name_value_separator : Bytes
name_value_separator = b':' ∷ 32 ∷ []

-- The loop over the headers.
unfoldable pub header_buffers : List Header → List Bytes
header_buffers [] = []
header_buffers (h ∷ headers) =
    h.name ∷ name_value_separator ∷ h.value ∷ crlf ∷ header_buffers headers

unfoldable pub to_buffers : Reply → List Bytes
to_buffers r = to_buffer r.status ∷ (header_buffers r.headers ++ crlf ∷ r.content ∷ [])

-- The two headers that the program sets.
abbrev pub content_headers : Bytes → Bytes → List Header
content_headers content kind =
    record { name = codes "Content-Length"; value = to_string (length content) }
    ∷ record { name = codes "Content-Type"; value = kind }
    ∷ []

unfoldable pub stock_reply : Status → Reply
stock_reply status = record {
  status = status;
  headers = content_headers (stock_content status) (codes "text/html");
  content = stock_content status;
}
