-- ===== src/Lib.antt =====
-- Verification library of Parser 3, the interpreter of a language for web pages written in C++.
--
-- The program reads pages, compiles them (src/main/compile.y) and runs them (src/main/execute.C) over
-- values and containers (src/types, src/include), with services around them: text in several
-- encodings, files, mail, HTTP and WebSocket connections. This library models services and containers
-- that the rest stands on, each from its source file:
--
-- Base64 is src/main/pa_base64.C. `encode` is `pa_base64_encode`, `decode` is `pa_base64_decode` with
--   its rank tables, `encode_size` and `decode_size` are what the two wrappers below them allocate.
--   Buffers are lists of bytes and what is written is the list that is returned. The decoder takes one
--   or two bytes in a round, so its loop is structural. Base64/Groups has the arithmetic of a group,
--   Base64/Letters
--   the letters that the tables let through, Base64/RoundTrip, Base64/Bounds and Base64/Strict the theorems.
--
-- WebSocket is src/main/pa_websocket.C and src/include/pa_websocket.h.
--   WebSocket/Buffer is `WebSocket::Buffer`: the unprocessed bytes as a list, with `pos` and the
--   allocated size as numbers. WebSocket/Frame is `WebSocket::parse` and the bytes of
--   `WebSocket::write_frame`; Frame/Client says independently which frames a client or a server may
--   send. WebSocket/Session is the state of a connection and its operations: `start`, `fill`, `failed`,
--   `send_close`, with `receive` in Session/Receive and `send`, `close` and the destructor in
--   Session/Close. A method is a function from the state to an outcome and a state. The socket is the
--   list of what poll and recv will answer and of the sends that will fail; what is sent is kept in
--   order. `receive` loops for as many rounds as `work` counts, and `close` likewise: each round
--   takes an answer off the socket or bytes out of the buffer, so that these are enough.
--   An answer with no bytes is the end of the stream, which every later read gets too; a socket without
--   answers is one that is silent, where each wait ends with a timeout. A client that never stops sending is
--   not in the model. Session/Receive/Parts, Rounds and Fragments are about messages in parts, Invariant and
--   Total about all that `receive` may meet.
--
-- Hash is the class HASH of src/include/pa_hash.h in the build without HASH_ORDER. A table is a record
--   with the counters of the source and the chains of pairs as lists; Hash/Chain has the loops over one
--   chain, Hash/Code the hash codes and the interface to the keys. The value 0 is `none`. A method
--   returns its result with the new table. Hash/Cells, Hash/Move, Hash/Update and Hash/Growth carry the
--   invariant through writes and rehashing, Hash/View states what callers see, a finite map.
--   In `merge_dont_replace` the two tables are not the same object.
--
-- Array is the class Array of src/include/pa_array.h: the block as the list of its cells, with the
--   allocated size and the size in use. Array/Block has copies into a block, Array/Elements and
--   Array/Change the operations on the list of elements. Freed memory, the iterators and the loops
--   with callbacks are left out.
--
-- Number is src/main/pa_int.C with the types of src/include/pa_int.h. `pa_itoa` fills a buffer from its
--   end, whose room is the bound of its loop; `pa_ato_any` is the template behind `pa_atoui`,
--   `pa_atoul`, `pa_atoi` and `pa_atowi`, with the modulus and the maximum of its type as arguments.
--   Number/Format is `format_type`, a machine over the bytes of a format, with Format/Grammar.
--   Number/Value and Number/Horner, Number/RoundTrip and Number/Range have the theorems.
--
-- Charset is src/main/pa_charset.C and src/include/pa_charset.h. Charset/Utf8 has the characters of UTF-8,
--   of one to six bytes, with their positions in a text; a pointer is the list of bytes that are left,
--   and the loops over characters run for as many rounds as there are bytes, since each takes one at
--   least. Charset/Tables has the charsets of one byte: the search in the sorted table and the
--   transcoding. Its loop runs for one round more than there are records, and a round halves the
--   range. Charset/Transcode is the way from UTF-8 and `Charset::transcode`, Charset/Escape has `escape`
--   and `escape_JSON`; each with the lengths calculated for their buffers; Escape/Replaced counts what a table
--   gives that UTF-8 cannot hold.
--
-- Text is src/main/pa_common.C: the functions on C strings, which return what they write and what they
--   assign to their references. Text/Split and Text/Lines are about cutting and line breaks,
--   Text/Unescape is the machine of `unescape_chars` with the table of src/main/pa_globals.C; it
--   stores characters by `Charset::store_Char` of Charset.
--   `get_direct`, which finds a charset by its name, is a parameter.
--   Text/Crc is CRC-32; `unsigned long` has 64 bits there, and a file is the list of the blocks read.
--
-- Dictionary is src/main/pa_dictionary.C and src/include/pa_dictionary.h: the rules in order, with the line of
--   the first rule for each first byte. Its search is the callback with the counter of lines.
--
-- Uue is src/main/pa_uue.C, the encoder; its loop over lines runs for as many rounds as there are bytes.
--
-- Date is src/types/pa_vdate.C: `pa_gmtime`, `validate_structure` and `pa_mktime` in the build without PA_DATE64. A time is a double there; its whole seconds, which it holds exactly,
--   are an integer here, and so are the fields of `struct tm`, without the bound of an `int`;
--   Date/Overflow says for which fields no carry leaves it. The loop over
--   months runs for as many rounds as the day has days to fit, the loops over years for the years between.
--   Date/Era, Date/Years and Date/Months have the calendar, Date/Days, Date/Civil and Date/Fields the way of
--   `pa_gmtime`, Date/Carry and Date/Fit that of `validate_structure`; Date/RoundTrip, Date/Normal and
--   Date/YearDay say what the functions do. Dates are counted from the year -400, so that days and years
--   are natural numbers. Date/Parse is `cstr_to_time_t` of src/classes/date.C, where a text that is cut by a zero is
--   the bytes in front of it; Date/Object is class VDate, with what the C library knows of time zones as
--   parameters, and `%.4d` written out. A method returns the object it leaves with what it throws.
--   Date/SqlText, Date/SqlNumbers and Date/SqlRoundTrip are about the text of a date, Date/Validate and
--   Date/Reread about the object. Date/Week is `CalcWeek`, whose call of itself is made once; Date/WeekYear,
--   Date/WeekBefore and Date/WeekIso compare it with ISO 8601. The ISO string is left out.
--
-- Prelude has the shared parts: tests on numbers, lists with the number as their length, bit
-- operations with their arithmetic, and results with errors. Tests has runs on concrete inputs.
--
-- Numbers are natural numbers; where the source has a fixed width, the wrap-around is written out.
-- Outside the model: the validity of UTF-8, which src/lib/pcre decides and which is a parameter here;
-- the time limits, which are answers of the socket; the handshake with its SHA-1; failures of the
-- allocator; floating point, with `pa_atod` and `format_double`; the locale, which is "C" here; and
-- the copies of other projects under src/lib. The compiler, the interpreter, the targets and
-- the classes of the language, but for the texts of dates, are not modelled.
pub mod Prelude
pub mod Base64
pub mod WebSocket
pub mod Hash
pub mod Array
pub mod Number
pub mod Charset
pub mod Text
pub mod Dictionary
pub mod Uue
pub mod Date
pub mod Tests
