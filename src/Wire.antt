-- ===== src/Wire.antt =====
-- The protobuf wire format as the generated Go code of pkg/ibc reads and writes it: the parts that
-- protoc-gen-gogo repeats in every .pb.go file. `Writer` and `Reader` hold the code, `Format` an
-- independent description of the bytes, and the other children the laws that relate them.
pub mod Result
pub mod Writer
pub mod Reader
pub mod Format
pub mod WriterLaws
pub mod ReaderLaws
pub mod Runs
pub mod Total
pub mod Skips
pub mod Terminates
pub mod Sov
pub mod Size
pub mod Field
pub mod RunsFields
pub mod Unknown
